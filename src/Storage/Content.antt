-- ===== src/Storage/Content.antt =====
-- storage/content_manager.py: ContentManager with the versions of blocks of content, and what
-- storage/sqlite.py writes of them. Text is its code points. The hash, the compression, the diff and
-- the encoder are functions; the encoder may raise. The database keeps a table as a list of rows. A
-- save is two steps, before and after it awaits the encoder, between which other saves may come.
pub mod Versions
pub mod Kept
pub mod Outcomes
pub mod Interleaved
pub mod Restart
mod Tests
use mnemostroma.Prelude.{
  ℕ, ◌+◌, String, Bool, true, false, ◌&&◌, Option, none, some, List, [], ◌∷◌, ◌++◌, ◌=ℕ◌, ◌==◌,
  nat_eq, string_eq, if◌then◌else◌, is_some,
}
use mnemostroma.Prelude.Dict.{Dict, get, put, remove}
use mnemostroma.Models.Chunks.{Text, Splits, chunk_content}

pub record ContentVersion {ℓ} (E : Type ℓ) : Type ℓ where
  pub version : ℕ
  pub content_hash : String
  pub content_raw : List ℕ
  pub content_diff : Text
  pub content_tags : List String
  pub why_changed : Option String
  pub embedding : E
  pub created_at : ℕ

pub record ContentBlock {ℓ} (E : Type ℓ) : Type ℓ where
  pub session_id : String
  pub content_type : String
  pub status : String
  pub versions : List (ContentVersion E)

-- What is put on the queue of the database.
pub data Item {ℓ} (E : Type ℓ) : Type ℓ where
  content_block : String → String → String → String → Item E
  content_version : String → ContentVersion E → Item E

-- The functions that are not modelled, and the embedder, if there is one: the parts that its
-- tokenizer and the regular expressions find in a text of a type, the tokens, and the encoder.
pub record Codec {ℓ} (E : Type ℓ) : Type ℓ where
  pub get_content_hash : Text → String
  pub compress_content : Text → List ℕ
  pub decompress_content : List ℕ → Text
  pub generate_diff : Text → Text → Text
  pub splits : String → Splits
  pub token_count : Text → ℕ
  pub encode_chunks : Option (List Text → Option E)
  pub zeros : E

-- The parts of SystemContext and of the manager that a save changes. The key of a row of the index
-- is the pair from which the source makes the string "{content_id}_{v_num}". `queued` is what was
-- given to the persistence layer, if there is one.
pub record Store {ℓ} (E : Type ℓ) : Type ℓ where
  pub blocks : Dict String (ContentBlock E)
  pub queued : Option (List (Item E))
  pub content_index : Option (List (ℕ × E))
  pub id_to_cid : Dict ℕ (String × ℕ)
  pub cid_to_id : Dict (String × ℕ) ℕ
  pub next_content_label : ℕ

pub record Request : Type 0 where
  pub content_id : String
  pub text : Text
  pub content_type : String
  pub session_id : String
  pub tags : List String
  pub why_changed : Option String
  pub now : ℕ

abbrev pub last {ℓ} : {A : Type ℓ} → List A → Option A
last [] = none
last (x ∷ []) = some x
last (x ∷ y ∷ xs) = last (y ∷ xs)

same_key : String × ℕ → String × ℕ → Bool
same_key (i, m) (j, n) = (i == j) && m =ℕ n

-- `get_content_label`, on the labels by key.
pub find_label : Dict (String × ℕ) ℕ → String × ℕ → Option ℕ
unfolding same_key
find_label [] key = none
find_label ((k, label) ∷ d) key = if same_key k key then some label else find_label d key

set_cid : Dict (String × ℕ) ℕ → String × ℕ → ℕ → Dict (String × ℕ) ℕ
unfolding same_key
set_cid [] key label = (key, label) ∷ []
set_cid ((k, l) ∷ d) key label =
    if same_key k key then (k, label) ∷ d else (k, l) ∷ set_cid d key label

module _ {ℓ} {E : Type ℓ} where
  pub new_block : Request → Option (ContentBlock E) → ContentBlock E
  new_block r (some block) = block
  new_block r none = record {
    session_id = r.session_id;
    content_type = r.content_type;
    status = "active";
    versions = [];
  }

  -- The block of a content, which is made when there is none.
  pub open_block : Request → Store E → ContentBlock E × Store E
  unfolding new_block
  open_block r s =
      let block = new_block r (get s.blocks r.content_id) in
      (block, record s { blocks = put s.blocks r.content_id block })

  pub is_unchanged : String → Option (ContentVersion E) → Bool
  is_unchanged new_hash none = false
  is_unchanged new_hash (some v) = v.content_hash == new_hash

  pub next_version : Option (ContentVersion E) → ℕ
  next_version none = 1
  next_version (some v) = v.version + 1

  diff_from : Codec E → Text → Option (ContentVersion E) → Text
  diff_from codec text none = []
  diff_from codec text (some v) = codec.generate_diff (codec.decompress_content v.content_raw) text

  -- The encoder on the chunks of the text, or zeros without an embedder.
  pub embed : Codec E → Request → Option (List Text → Option E) → Option E
  embed codec r none = some codec.zeros
  embed codec r (some encode) =
      encode (chunk_content (codec.splits r.content_type) codec.token_count 384 48 r.text)

  pub version_of : Codec E → Request → E → Option (ContentVersion E) → ContentVersion E
  unfolding next_version diff_from
  version_of codec r embedding last_version = record {
    version = next_version last_version;
    content_hash = codec.get_content_hash r.text;
    content_raw = codec.compress_content r.text;
    content_diff = diff_from codec r.text last_version;
    content_tags = r.tags;
    why_changed = r.why_changed;
    embedding = embedding;
    created_at = r.now;
  }

  pub enqueue : List (Item E) → Option (List (Item E)) → Option (List (Item E))
  enqueue items none = none
  enqueue items (some queued) = some (queued ++ items)

  pub label_or_next : Option ℕ → Store E → ℕ × Store E
  label_or_next (some label) s = (label, s)
  label_or_next none s =
      (s.next_content_label, record s { next_content_label = s.next_content_label + 1 })

  pub get_content_label : String × ℕ → Store E → ℕ × Store E
  unfolding find_label label_or_next
  get_content_label key s = label_or_next (find_label s.cid_to_id key) s

  pub add_item : String × ℕ → E → Store E → Option (List (ℕ × E)) → Store E
  unfolding get_content_label set_cid
  add_item key embedding s none = s
  add_item key embedding s (some rows) =
      let (label, s') = get_content_label key s in
      record s' {
        id_to_cid = put s'.id_to_cid label key;
        cid_to_id = set_cid s'.cid_to_id key label;
        content_index = some (rows ++ (label, embedding) ∷ []);
      }

  -- What a new version changes: the block, the queue and the index.
  pub add_version : Request → ContentBlock E → ContentVersion E → Store E → Store E
  unfolding enqueue add_item
  add_version r block v s =
      let s' = record s {
        blocks = put s.blocks r.content_id (record block { versions = block.versions ++ v ∷ [] });
        queued =
            enqueue
              (content_block r.content_id r.session_id r.content_type block.status
                ∷ content_version r.content_id v
                ∷ [])
              s.queued;
      } in
      add_item (r.content_id, v.version) v.embedding s' s.content_index

  -- After the encoder, with the last version from before it. The block is the object in the cache,
  -- with what other saves have done to it.
  pub saved :
      Codec E
      → Request
      → Option (ContentVersion E)
      → Store E
      → Option E
      → Option (ContentVersion E) × Store E
  unfolding version_of add_version new_block
  saved codec r last_version s none = (none, s)
  saved codec r last_version s (some embedding) =
      let v = version_of codec r embedding last_version in
      (some v, add_version r (new_block r (get s.blocks r.content_id)) v s)

  -- The second step of a save, `none` when the encoder raises.
  pub end_save :
      Codec E → Request → Option (ContentVersion E) → Store E → Option (ContentVersion E) × Store E
  unfolding embed saved
  end_save codec r last_version s = saved codec r last_version s (embed codec r codec.encode_chunks)

-- A save that has returned the last version, or awaits the encoder with it.
pub data Begun {ℓ} (E : Type ℓ) : Type ℓ where
  finished : Option (ContentVersion E) → Begun E
  awaiting : Option (ContentVersion E) → Begun E

module _ {ℓ} {E : Type ℓ} where
  pub begun : Bool → Option (ContentVersion E) → Begun E
  begun true last_version = finished last_version
  begun false last_version = awaiting last_version

  -- The first step of a save.
  pub begin_save : Codec E → Request → Store E → Begun E × Store E
  unfolding open_block is_unchanged begun
  begin_save codec r s =
      let (block, s') = open_block r s in
      (
        begun (is_unchanged (codec.get_content_hash r.text) (last block.versions))
            (last block.versions),
        s',
      )

  pub rest_of_save : Codec E → Request → Store E → Begun E → Option (ContentVersion E) × Store E
  unfolding end_save
  rest_of_save codec r s (finished v) = (v, s)
  rest_of_save codec r s (awaiting last_version) = end_save codec r last_version s

  -- A save that no other overlaps.
  pub save : Codec E → Request → Store E → Option (ContentVersion E) × Store E
  unfolding begin_save rest_of_save
  save codec r s = let (b, s') = begin_save codec r s in rest_of_save codec r s' b

-- The two tables of the content branch.
pub record Tables {ℓ} (E : Type ℓ) : Type ℓ where
  pub content_blocks : Dict String (String × (String × String))
  pub content_versions : List (String × ContentVersion E)

module _ {ℓ} {E : Type ℓ} where
  pub is_row : String → ℕ → String → ContentVersion E → Bool
  is_row content_id version i v = (i == content_id) && v.version =ℕ version

  -- The row under a primary key of `content_versions`.
  pub row_of : List (String × ContentVersion E) → String → ℕ → Option (ContentVersion E)
  unfolding is_row
  row_of [] content_id version = none
  row_of ((i, v) ∷ rows) content_id version =
      if is_row content_id version i v then some v else row_of rows content_id version

  -- An INSERT on a primary key that is there is an error, which is logged, and inserts nothing.
  pub insert_version :
      String
      → ContentVersion E
      → List (String × ContentVersion E)
      → List (String × ContentVersion E)
  unfolding row_of
  insert_version content_id v rows =
      if is_some (row_of rows content_id v.version) then rows else rows ++ (content_id, v) ∷ []

  pub flush_item : Item E → Tables E → Tables E
  unfolding insert_version
  flush_item (content_block content_id session_id content_type status) t = record t {
    content_blocks =
        remove t.content_blocks content_id
        ++ (content_id, (session_id, (content_type, status))) ∷ [];
  }
  flush_item (content_version content_id v) t = record t {
    content_versions = insert_version content_id v t.content_versions;
  }

  pub flush_batch : List (Item E) → Tables E → Tables E
  unfolding flush_item
  flush_batch [] t = t
  flush_batch (item ∷ items) t = flush_batch items (flush_item item t)
