-- ===== src/Memory/Labels/Laws.antt =====
-- The maps of labels stay inverse to one another, and a released session has no label left.
use mnemostroma.Prelude.{
  ℕ, ◌+◌, ◌<◌, String, ◌≡◌, refl, ◌≢◌, ◌↔◌, inl, inr, true, ◌||◌, ◌&&◌, Option, none, some, List,
  [], ◌∷◌, ◌++◌, arith, ◌==◌, nat_eq, string_eq, ==_iff, if◌then◌else◌, contains, Bool-cases,
  Option-cases,
}
use mnemostroma.Prelude.Dict.{Dict, get, remove, get-put, get-remove}
use mnemostroma.Memory.Labels.{
  Labels, no_labels, label_or_next, get_session_label, chunk_labels, allocate_chunk_label,
  set_label, register_session, remove_all, label_list, labels_of, release_session_labels,
}

-- The labels of a session are exactly the labels that lead back to it, and all are in use.
pub record IsConsistent (c : Labels) : Type 0 where
  pub forward :
      (sid : String) (l : ℕ) → contains l (labels_of c sid) ≡ true → get c.id_to_sid l ≡ some sid
  pub backward :
      (sid : String) (l : ℕ) → get c.id_to_sid l ≡ some sid → contains l (labels_of c sid) ≡ true
  pub used : (sid : String) (l : ℕ) → get c.id_to_sid l ≡ some sid → l < c.next_session_label

no_labels-IsConsistent : IsConsistent no_labels
unfolding get
no_labels-IsConsistent = record {
  forward = λ sid l h. cc;
  backward = λ sid l h. cc;
  used = λ sid l h. cc;
}

contains-snoc : (l m : ℕ) (ls : List ℕ) → contains l (ls ++ m ∷ []) ≡ contains l ls || l == m
contains-snoc l m [] = ground arith
contains-snoc l m (x ∷ ls) = ground (arith, contains-snoc l m ls)

get-remove_all :
    (d : Dict ℕ String) (ls : List ℕ) (l : ℕ)
    → get (remove_all d ls) l ≡ (if contains l ls then none else get d l)
get-remove_all d [] l = refl
get-remove_all d (m ∷ ls) l =
    ground (arith, get-remove_all (remove d m) ls l, get-remove d m l, ==_iff m l, ==_iff l m)

contains-label_list :
    (o : Option ℕ) (ls : List ℕ) (l m : ℕ)
    → contains l (label_list o (ls ++ m ∷ [])) ≡ contains l (label_list o ls) || l == m
contains-label_list none ls l m = contains-snoc l m ls
contains-label_list (some k) ls l m = ground (arith, contains-snoc l m ls)

labels_of-chunk :
    (c : Labels) (sid other : String) (l : ℕ)
    → contains l (labels_of (allocate_chunk_label sid c).1 other)
      ≡ (contains l (labels_of c other) || (sid == other && l == c.next_session_label))
unfolding allocate_chunk_label
labels_of-chunk c sid other l = elim (Bool-cases (sid == other)) [
  | inl same ↦ ground (
    arith,
    same,
    ==_iff sid other,
    get-put c.sid_to_chunk_labels sid other (chunk_labels c sid ++ c.next_session_label ∷ []),
    contains-label_list (get c.sid_to_id sid) (chunk_labels c sid) l c.next_session_label,
  )
  | inr apart ↦ ground (
    arith,
    apart,
    get-put c.sid_to_chunk_labels sid other (chunk_labels c sid ++ c.next_session_label ∷ []),
  )
]

pub allocate_chunk_label-IsConsistent :
    (sid : String) (c : Labels) → IsConsistent c → IsConsistent (allocate_chunk_label sid c).1
unfolding allocate_chunk_label
allocate_chunk_label-IsConsistent sid c v = record {
  forward = λ other l h. ground (
    arith,
    labels_of-chunk c sid other l,
    get-put c.id_to_sid c.next_session_label l sid,
    v.forward other l,
    v.used other l,
    ==_iff sid other,
  );
  backward = λ other l h. ground (
    arith,
    labels_of-chunk c sid other l,
    get-put c.id_to_sid c.next_session_label l sid,
    v.backward other l,
    ==_iff sid other,
  );
  used =
      λ other l h. ground (arith, get-put c.id_to_sid c.next_session_label l sid, v.used other l);
}

labels_of-set :
    (c : Labels) (sid other : String) (label l : ℕ)
    → contains l (labels_of (set_label sid (label, c)).1 other) ≡ (
        if sid == other
        then l == label || contains l (chunk_labels c sid)
        else contains l (labels_of c other))
unfolding set_label
labels_of-set c sid other label l =
    ground (arith, get-put c.sid_to_id sid other label, ==_iff sid other)

-- A session that has a label keeps it, and another session gets the next one.
register_session_old :
    (sid : String) (c : Labels) (label : ℕ)
    → get c.sid_to_id sid ≡ some label
    → register_session sid c ≡ set_label sid (label, c)
unfolding register_session get_session_label label_or_next
register_session_old sid c label e = rw e refl

register_session_new :
    (sid : String) (c : Labels)
    → get c.sid_to_id sid ≡ none
    → register_session sid c
      ≡ set_label sid
          (c.next_session_label, record c { next_session_label = c.next_session_label + 1 })
unfolding register_session get_session_label label_or_next
register_session_new sid c e = rw e refl

set_label-IsConsistent :
    (sid : String) (c : Labels) (label : ℕ)
    → get c.sid_to_id sid ≡ some label
    → IsConsistent c
    → IsConsistent (set_label sid (label, c)).1
unfolding set_label
set_label-IsConsistent sid c label e v =
    let owned : contains label (labels_of c sid) ≡ true = ground (arith) in
    record {
      forward = λ other l h. ground (
        arith,
        labels_of-set c sid other label l,
        get-put c.id_to_sid label l sid,
        v.forward other l,
        v.forward sid l,
        v.forward sid label,
        ==_iff sid other,
      );
      backward = λ other l h. ground (
        arith,
        labels_of-set c sid other label l,
        get-put c.id_to_sid label l sid,
        v.backward other l,
        ==_iff sid other,
      );
      used = λ other l h. ground (
        arith,
        get-put c.id_to_sid label l sid,
        v.used other l,
        v.used sid label,
        v.forward sid label,
      );
    }

set_next-IsConsistent :
    (sid : String) (c : Labels)
    → get c.sid_to_id sid ≡ none
    → IsConsistent c
    → IsConsistent
        (set_label sid
          (c.next_session_label, record c { next_session_label = c.next_session_label + 1 })).1
unfolding set_label
set_next-IsConsistent sid c e v =
    let next : ℕ = c.next_session_label in
    let c' : Labels = record c { next_session_label = c.next_session_label + 1 } in
    record {
      forward = λ other l h. ground (
        arith,
        labels_of-set c' sid other next l,
        get-put c.id_to_sid next l sid,
        v.forward other l,
        v.forward sid l,
        v.used other l,
        v.used sid l,
        ==_iff sid other,
      );
      backward = λ other l h. ground (
        arith,
        labels_of-set c' sid other next l,
        get-put c.id_to_sid next l sid,
        v.backward other l,
        ==_iff sid other,
      );
      used = λ other l h. ground (arith, get-put c.id_to_sid next l sid, v.used other l);
    }

pub register_session-IsConsistent :
    (sid : String) (c : Labels) → IsConsistent c → IsConsistent (register_session sid c).1
register_session-IsConsistent sid c v = elim (Option-cases (get c.sid_to_id sid)) [
  | inl fresh ↦ rw (register_session_new sid c fresh) (set_next-IsConsistent sid c fresh v)
  | inr (label, e) ↦
      rw (register_session_old sid c label e) (set_label-IsConsistent sid c label e v)
]

-- Where the labels lead after a release: those of the session nowhere, the others as before.
get-release :
    (sid : String) (c : Labels) (l : ℕ)
    → IsConsistent c
    → get (release_session_labels sid c).1.id_to_sid l
      ≡ (if contains l (labels_of c sid) then none else get c.id_to_sid l)
unfolding release_session_labels
get-release sid c l v = get-remove_all c.id_to_sid (labels_of c sid) l

labels_of-release :
    (sid other : String) (c : Labels)
    → labels_of (release_session_labels sid c).1 other
      ≡ (if sid == other then [] else labels_of c other)
unfolding release_session_labels
labels_of-release sid other c =
    ground (arith, get-remove c.sid_to_id sid other, get-remove c.sid_to_chunk_labels sid other)

pub release_session_labels-IsConsistent :
    (sid : String) (c : Labels) → IsConsistent c → IsConsistent (release_session_labels sid c).1
unfolding release_session_labels
release_session_labels-IsConsistent sid c v = record {
  forward = λ other l h. ground (
    arith,
    labels_of-release sid other c,
    get-release sid c l v,
    v.forward other l,
    v.forward sid l,
    ==_iff sid other,
  );
  backward = λ other l h. ground (
    arith,
    labels_of-release sid other c,
    get-release sid c l v,
    v.backward other l,
    v.forward sid l,
    ==_iff sid other,
  );
  used = λ other l h. ground (arith, get-release sid c l v, v.used other l);
}

-- What can happen to the labels.
pub data Reach : Labels → Type 0 where
  start : Reach no_labels
  registered : {c : Labels} (sid : String) → Reach c → Reach (register_session sid c).1
  allocated : {c : Labels} (sid : String) → Reach c → Reach (allocate_chunk_label sid c).1
  released : {c : Labels} (sid : String) → Reach c → Reach (release_session_labels sid c).1

-- After any registrations, chunk allocations and releases: the labels of a session are exactly the
-- labels that lead to it, and every label that leads somewhere is below the next one, so that a
-- new label is never one in use.
pub Reach-IsConsistent : {c : Labels} → Reach c → IsConsistent c
Reach-IsConsistent start = no_labels-IsConsistent
Reach-IsConsistent (registered {c} sid r) =
    register_session-IsConsistent sid c (Reach-IsConsistent r)
Reach-IsConsistent (allocated {c} sid r) =
    allocate_chunk_label-IsConsistent sid c (Reach-IsConsistent r)
Reach-IsConsistent (released {c} sid r) =
    release_session_labels-IsConsistent sid c (Reach-IsConsistent r)

-- A release drops exactly the labels of the session: the dropped labels are those that led to it,
-- they lead nowhere afterwards, every other label leads where it led, and so none leads to it.
pub release_session_labels_lem :
    (sid : String) (c : Labels) (l : ℕ)
    → IsConsistent c
    → (contains l (release_session_labels sid c).0 ≡ true ↔ (get c.id_to_sid l ≡ some sid))
      × (get (release_session_labels sid c).1.id_to_sid l
          ≡ (if contains l (release_session_labels sid c).0 then none else get c.id_to_sid l))
      × (get (release_session_labels sid c).1.id_to_sid l ≢ some sid)
unfolding release_session_labels
release_session_labels_lem sid c l v =
    ground (arith, get-release sid c l v, v.forward sid l, v.backward sid l)
