-- ===== src/Memory/Labels/Tests.antt =====
-- Concrete labels.
use mnemostroma.Prelude.{nat_eq, string_eq}
use mnemostroma.Memory.Labels.{
  Labels, no_labels, allocate_chunk_label, register_session, release_session_labels,
}
use mnemostroma.Memory.Labels.Laws.{
  Reach, start, registered, allocated, released, IsConsistent, Reach-IsConsistent,
}

-- Two sessions are registered, and the first one has a chunk.
abbrev two_sessions : Labels
two_sessions =
    (register_session "b" (allocate_chunk_label "a" (register_session "a" no_labels).1).1).1

two_sessions-Reach : Reach two_sessions
two_sessions-Reach = registered "b" (allocated "a" (registered "a" start))

Reach-IsConsistent_example : IsConsistent (release_session_labels "a" two_sessions).1
Reach-IsConsistent_example = Reach-IsConsistent (released "a" two_sessions-Reach)
