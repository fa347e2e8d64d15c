-- ===== src/Workspace/Patches.antt =====
-- What a patch does to a file, src/runtime/workspace.ts.
use adrouter_agent.Prelude.{
  Bool-cases, Option-cases, Sum-cases, is_some, length, take, drop, length-take, Text, starts_with,
  is_empty, inr_inj, ℕ, suc, ◌+◌, ◌≤◌, String, ◌≡◌, refl, ap, subst, inl, inr, Bool, true, false,
  Option, none, some, List, [], ◌∷◌, ◌++◌, arith, eq_iff,
}
use adrouter_agent.Workspace.{
  Digests, max_text_file_bytes, TextFile, is_binary, text_file, read_workspace_text_file,
  Replacement, index_of, apply_replacement, apply_replacements, ApplyPatchInput, Inspected, missing,
  directory, file, Write, delete, replace, AppliedPatch, is_hash, write_after, patch_file,
  apply_workspace_patch,
}

starts_with_sound : (s part : Text) → starts_with s part ≡ true → s ≡ part ++ drop (length part) s
unfolding starts_with
starts_with_sound s [] h = refl
starts_with_sound [] (d ∷ part) h = cc
starts_with_sound (c ∷ s) (d ∷ part) h = ground (arith, starts_with_sound s part)

starts_zero : (n : ℕ) → 0 + n ≡ n
starts_zero n = omega arith

suc_plus : (m n : ℕ) → suc m + n ≡ suc (m + n)
suc_plus m n = omega arith

none_of : (o : Option ℕ) → is_some o ≡ false → o ≡ none
none_of none h = refl
none_of (some n) h = cc

some_inj : (m n : ℕ) → some m ≡ some n → m ≡ n
some_inj m n h = cc

index_of_le : (text part : Text) (n : ℕ) → index_of text part ≡ some n → n ≤ length text
unfolding index_of
index_of_le [] part n h = ground arith
index_of_le (c ∷ text) part n h = elim (Option-cases (index_of text part)) [
  | inl e ↦ ground arith
  | inr (m, e) ↦ ground (arith, index_of_le text part m e)
]

-- The text around the first occurrence of a part.
index_of_sound :
    (text part : Text) (n : ℕ)
    → index_of text part ≡ some n
    → text ≡ take n text ++ (part ++ drop (n + length part) text)
unfolding index_of
index_of_sound [] [] n h =
    subst (λ m. ◌≡◌ {A = Text} [] (take m [] ++ ([] ++ drop (m + 0) []))) (some_inj 0 n h) refl
index_of_sound [] (d ∷ part) n h = cc
index_of_sound (c ∷ text) part n h = elim (Bool-cases (starts_with (c ∷ text) part)) [
  | inl here ↦
      subst (λ m. c ∷ text ≡ take m (c ∷ text) ++ (part ++ drop (m + length part) (c ∷ text)))
        (some_inj 0 n (ground arith))
        (rw (starts_zero (length part)) (starts_with_sound (c ∷ text) part here))
  | inr later ↦ elim (Option-cases (index_of text part)) [
    | inl e ↦ absurd (ground arith)
    | inr (m, e) ↦
        let rest = index_of_sound text part m e in
        subst (λ k. c ∷ text ≡ take k (c ∷ text) ++ (part ++ drop (k + length part) (c ∷ text)))
          (some_inj (suc m) n (ground arith)) (rw (suc_plus m (length part)) (ap (λ t. c ∷ t) rest))
  ]
]

-- A part that occurs in a text, once and not behind itself, and the text with another in its place.
pub record IsReplaced (original replacement before after : Text) : Type 0 where
  pub head : Text
  pub tail : Text
  pub is_nonempty : is_empty original ≡ false
  pub found : before ≡ head ++ (original ++ tail)
  pub is_first : index_of before original ≡ some (length head)
  pub is_last : index_of tail original ≡ none
  pub put : after ≡ head ++ replacement ++ tail

apply_replacement-IsReplaced :
    (r : Replacement) (before after : Text)
    → apply_replacement r before ≡ inr after
    → IsReplaced r.original r.replacement before after
unfolding apply_replacement
apply_replacement-IsReplaced r before after h = elim (Option-cases (index_of before r.original)) [
  | inl e ↦ absurd (ground arith)
  | inr (first, e) ↦ record {
    head = take first before;
    tail = drop (first + length r.original) before;
    is_nonempty = ground arith;
    found = index_of_sound before r.original first e;
    is_first = ground (arith, e, length-take first before, index_of_le before r.original first e);
    is_last =
        none_of (index_of (drop (first + length r.original) before) r.original) (ground arith);
    put = ground arith;
  }
]

-- Every replacement of a list, in order.
pub data IsPatched : Text → List Replacement → Text → Type 0 where
  unchanged : (text : Text) → IsPatched text [] text
  patched :
      {before after last : Text} {r : Replacement} {rs : List Replacement}
      → IsReplaced r.original r.replacement before after
      → IsPatched after rs last
      → IsPatched before (r ∷ rs) last

-- Replacements that go through have each replaced a block of the text that they met, found where it
-- first occurs and not again behind it, and nothing else.
pub apply_replacements-IsPatched :
    (text : Text) (rs : List Replacement) (last : Text)
    → apply_replacements text rs ≡ inr last
    → IsPatched text rs last
unfolding apply_replacements
apply_replacements-IsPatched text [] last h =
    subst (λ t. IsPatched text [] t) (inr_inj text last h) (unchanged text)
apply_replacements-IsPatched text (r ∷ rs) last h = elim (Sum-cases (apply_replacement r text)) [
  | inl (error, e) ↦ absurd (ground arith)
  | inr (next, e) ↦
      patched (apply_replacement-IsReplaced r text next e)
        (apply_replacements-IsPatched next rs last (ground arith))
]

-- What a patch that goes through stands for: the bytes at the path had the hash that the patch
-- expects, and the write is what the patch reports.
pub data IsApplied (d : Digests) (approved : Bool) (input : ApplyPatchInput) (found : Inspected)
    (w : Write) (result : AppliedPatch) : Type 0 where
  deletes :
      (bytes : List ℕ)
      → found ≡ file bytes
      → is_binary bytes ≡ false
      → input.expected_before_hash ≡ some (d.sha256 bytes)
      → input.delete_file ≡ true
      → approved ≡ true
      → w ≡ delete bytes
      → result ≡ record {
        before = some (d.decode bytes);
        after = none;
        before_hash = some (d.sha256 bytes);
        after_hash = none;
      }
      → IsApplied d approved input found w result
  changes :
      (bytes : List ℕ) (after : Text)
      → found ≡ file bytes
      → is_binary bytes ≡ false
      → input.expected_before_hash ≡ some (d.sha256 bytes)
      → input.delete_file ≡ false
      → IsPatched (d.decode bytes) input.replacements after
      → d.byte_length after ≤ max_text_file_bytes
      → w ≡ replace (some bytes) (d.encode after)
      → result ≡ record {
        before = some (d.decode bytes);
        after = some after;
        before_hash = some (d.sha256 bytes);
        after_hash = some (d.sha256 (d.encode after));
      }
      → IsApplied d approved input found w result
  creates :
      (after : Text)
      → found ≡ missing
      → input.expected_before_hash ≡ none
      → input.delete_file ≡ false
      → input.create_content ≡ some after
      → d.byte_length after ≤ max_text_file_bytes
      → w ≡ replace none (d.encode after)
      → result ≡ record {
        before = none;
        after = some after;
        before_hash = none;
        after_hash = some (d.sha256 (d.encode after));
      }
      → IsApplied d approved input found w result

is_hash_sound :
    (expected : Option String) (hash : String) → is_hash expected hash ≡ true → expected ≡ some hash
is_hash_sound none hash h = cc
is_hash_sound (some e) hash h = ground (arith, eq_iff e hash)

none_of_hash : (o : Option String) → is_some o ≡ false → o ≡ none
none_of_hash none h = refl
none_of_hash (some hash) h = cc

file_IsApplied :
    (d : Digests) (approved : Bool) (input : ApplyPatchInput) (bytes : List ℕ) (f : TextFile)
    (w : Write) (result : AppliedPatch)
    → is_binary bytes ≡ false
    → f ≡ text_file d bytes
    → patch_file d approved input f ≡ inr (w, result)
    → IsApplied d approved input (file bytes) w result
unfolding patch_file write_after
file_IsApplied d approved input bytes f w result text read h =
    let expected = is_hash_sound input.expected_before_hash (d.sha256 bytes) (ground arith) in
    elim (Bool-cases input.delete_file) [
      | inl e ↦ deletes bytes refl text expected e (ground arith) (ground arith) (ground arith)
      | inr kept ↦ elim (Sum-cases (apply_replacements (d.decode bytes) input.replacements)) [
        | inl (error, e) ↦ absurd (ground arith)
        | inr (after, e) ↦
            changes bytes after refl text expected kept
              (apply_replacements-IsPatched (d.decode bytes) input.replacements after e)
              (ground arith) (ground arith) (ground arith)
      ]
    ]

-- A patch that goes through had the hash of the bytes of a text file at its path, or none for a file
-- to create. A deletion was asked for and approved. A change replaced exactly the blocks that it
-- names in the text that these bytes decode to, and asks that the file still has these bytes and
-- gets the encoding of the new text. A text that is written has at most a mebibyte, and the report
-- gives the texts and the hashes from before and after.
pub apply_workspace_patch-IsApplied :
    (d : Digests) (approved : Bool) (input : ApplyPatchInput) (found : Inspected) (w : Write)
    (result : AppliedPatch)
    → apply_workspace_patch d approved input found ≡ inr (w, result)
    → IsApplied d approved input found w result
unfolding apply_workspace_patch write_after read_workspace_text_file
apply_workspace_patch-IsApplied d approved input directory w result h = cc
apply_workspace_patch-IsApplied d approved input missing w result h =
    elim (Option-cases input.create_content) [
      | inl e ↦ absurd (ground arith)
      | inr (after, e) ↦
          creates after refl (none_of_hash input.expected_before_hash (ground arith)) (ground arith)
            e (ground arith) (ground arith) (ground arith)
    ]
apply_workspace_patch-IsApplied d approved input (file bytes) w result h =
    elim (Bool-cases (is_binary bytes)) [
      | inl e ↦ absurd (ground arith)
      | inr e ↦
          file_IsApplied d approved input bytes (text_file d bytes) w result e refl (ground arith)
    ]
