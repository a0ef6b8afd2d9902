-- ===== src/Storage/Content/Tests.antt =====
-- A block that is saved three times, the second time unchanged, and again after a restart. The hash
-- tells texts apart by their first code point.
use mnemostroma.Prelude.{
  ℕ, ◌≡◌, refl, String, true, none, some, List, [], ◌∷◌, ◌++◌, ◌=ℕ◌, if◌then◌else◌, map, is_some,
  length,
}
use mnemostroma.Prelude.Dict.{get, put, remove}
use mnemostroma.Storage.Content.{
  ContentVersion, Codec, Store, Request, begin_save, end_save, save, Tables, row_of, flush_batch,
}
use mnemostroma.Storage.Content.Versions.{versions_of, items_of}
use mnemostroma.Storage.Content.Kept.{new_store, no_tables, IsKept}
use mnemostroma.Storage.Content.Interleaved.{Reach, here, begins, ends, Reach-IsKept}
use mnemostroma.Storage.Content.Restart.{save_after_restart}

abbrev hash : List ℕ → String
hash [] = ""
hash (c ∷ cs) = if c =ℕ 65 then "A" else "B"

abbrev codec : Codec ℕ
codec = record {
  get_content_hash = hash;
  compress_content = λ t. t;
  decompress_content = λ t. t;
  generate_diff = λ old new. old ++ new;
  splits = λ type. record { coarse = λ t. t ∷ []; finer = λ t. t ∷ []; words = λ t. t ∷ [] };
  token_count = λ t. 1;
  encode_chunks = some (λ chunks. some 7);
  zeros = 0;
}

abbrev request : List ℕ → Request
request text = record {
  content_id = "f";
  text = text;
  content_type = "code";
  session_id = "s";
  tags = [];
  why_changed = none;
  now = 5;
}

abbrev begin_on : Store ℕ → List ℕ → Store ℕ
begin_on s text = (begin_save codec (request text) s).1

abbrev saved_thrice : Store ℕ
saved_thrice =
    (save codec (request (66 ∷ []))
      (save codec (request (65 ∷ [])) (save codec (request (65 ∷ [])) (new_store (some []))).1).1).1

two_versions :
    map {B = ℕ × List ℕ}
      (λ (v : ContentVersion ℕ). (v.version, v.content_raw))
      (versions_of saved_thrice "f")
    ≡ (1, 65 ∷ []) ∷ (2, 66 ∷ []) ∷ []
unfolding save get put
two_versions = refl

two_labels : saved_thrice.content_index ≡ some ((0, 7) ∷ (1, 7) ∷ [])
unfolding save get put
two_labels = refl

-- Another content is saved while the first awaits the encoder.
abbrev other : Request
other = record (request (65 ∷ [])) { content_id = "g" }

abbrev both_wait : Store ℕ
both_wait = (begin_save codec other (begin_save codec (request (65 ∷ [])) (new_store none)).1).1

abbrev both_saved : Store ℕ
both_saved = (end_save codec other none (end_save codec (request (65 ∷ [])) none both_wait).1).1

reached : Reach codec both_saved []
unfolding begin_save get put remove
reached =
    ends
      (ends (begins (begins (here none) (request (65 ∷ [])) refl) other refl) "f"
        (request (65 ∷ [])) none refl)
      "g" other none refl

Reach-IsKept_example : IsKept both_saved
Reach-IsKept_example = Reach-IsKept reached

-- Two saves of one content that overlap make two first versions, and the table gets only one of them.
abbrev overlapped : Store ℕ
overlapped =
    let s = begin_on (begin_on (new_store none) (65 ∷ [])) (66 ∷ []) in
    (end_save codec (request (66 ∷ [])) none (end_save codec (request (65 ∷ [])) none s).1).1

two_first_versions :
    map {B = ℕ × List ℕ}
      (λ (v : ContentVersion ℕ). (v.version, v.content_raw))
      (versions_of overlapped "f")
    ≡ (1, 65 ∷ []) ∷ (1, 66 ∷ []) ∷ []
unfolding begin_save end_save get put
two_first_versions = refl

one_row : length (flush_batch (items_of overlapped.queued) no_tables).content_versions ≡ 1
unfolding begin_save end_save get put flush_batch row_of
one_row = refl

abbrev disk : Tables ℕ
disk = flush_batch (items_of saved_thrice.queued) no_tables

first_row : is_some (row_of disk.content_versions "f" 1) ≡ true
unfolding save get put flush_batch row_of
first_row = refl

abbrev restarted : Store ℕ
restarted = (save codec (request (67 ∷ [])) (new_store none)).1

save_after_restart_example :
    (flush_batch (items_of restarted.queued) disk).content_versions ≡ disk.content_versions
save_after_restart_example =
    save_after_restart codec (request (67 ∷ [])) (new_store none) disk refl refl first_row
