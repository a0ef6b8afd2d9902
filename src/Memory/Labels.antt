-- ===== src/Memory/Labels.antt =====
-- core/__init__.py (the label maps of `SystemContext`), and the registration of a session's summary
-- vector in observer/steps/persist_step.py. A label is a row of the search index.
pub mod Laws
mod Tests
use mnemostroma.Prelude.{
  ℕ, ◌+◌, String, Bool, true, false, Option, none, some, List, [], ◌∷◌, ◌++◌, nat_eq, string_eq,
}
use mnemostroma.Prelude.Dict.{Dict, get, put, remove}

pub record Labels : Type 0 where
  pub sid_to_id : Dict String ℕ
  pub id_to_sid : Dict ℕ String
  pub sid_to_chunk_labels : Dict String (List ℕ)
  pub next_session_label : ℕ

abbrev pub no_labels : Labels
no_labels = record {
  sid_to_id = [];
  id_to_sid = [];
  sid_to_chunk_labels = [];
  next_session_label = 0;
}

label_or_next : Option ℕ → Labels → ℕ × Labels
label_or_next (some label) c = (label, c)
label_or_next none c =
    (c.next_session_label, record c { next_session_label = c.next_session_label + 1 })

pub get_session_label : String → Labels → ℕ × Labels
unfolding label_or_next
get_session_label session_id c = label_or_next (get c.sid_to_id session_id) c

abbrev pub list_or_empty : Option (List ℕ) → List ℕ
list_or_empty none = []
list_or_empty (some ls) = ls

-- The chunk labels of a session: `sid_to_chunk_labels.get(session_id, [])`.
abbrev pub chunk_labels : Labels → String → List ℕ
chunk_labels c session_id = list_or_empty (get c.sid_to_chunk_labels session_id)

unfoldable pub allocate_chunk_label : String → Labels → ℕ × Labels
allocate_chunk_label session_id c = (
  c.next_session_label,
  record c {
    next_session_label = c.next_session_label + 1;
    id_to_sid = put c.id_to_sid c.next_session_label session_id;
    sid_to_chunk_labels =
        put c.sid_to_chunk_labels session_id
          (chunk_labels c session_id ++ c.next_session_label ∷ []);
  },
)

-- What `persist_step` writes under the label of a new summary vector.
unfoldable pub set_label : String → ℕ × Labels → ℕ × Labels
set_label session_id (label, c) = (
  label,
  record c {
    id_to_sid = put c.id_to_sid label session_id;
    sid_to_id = put c.sid_to_id session_id label;
  },
)

pub register_session : String → Labels → ℕ × Labels
unfolding get_session_label set_label
register_session session_id c = set_label session_id (get_session_label session_id c)

-- The labels popped one after the other.
abbrev pub remove_all {ℓ} : {V : Type ℓ} → Dict ℕ V → List ℕ → Dict ℕ V
remove_all d [] = d
remove_all d (l ∷ ls) = remove_all (remove d l) ls

-- The label of the summary, if there is one, and then those of the chunks.
abbrev pub label_list : Option ℕ → List ℕ → List ℕ
label_list none chunks = chunks
label_list (some label) chunks = label ∷ chunks

abbrev pub labels_of : Labels → String → List ℕ
labels_of c session_id = label_list (get c.sid_to_id session_id) (chunk_labels c session_id)

pub release_session_labels : String → Labels → List ℕ × Labels
release_session_labels session_id c =
    let dropped = labels_of c session_id in
    (
      dropped,
      record c {
        sid_to_id = remove c.sid_to_id session_id;
        sid_to_chunk_labels = remove c.sid_to_chunk_labels session_id;
        id_to_sid = remove_all c.id_to_sid dropped;
      },
    )
