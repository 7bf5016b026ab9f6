-- ===== src/Coordinator/MutationStore/Shape.antt =====
-- The batch after a mutation is applied: the parts of the tables that it wrote.
use syncali.Prelude.{
  ℕ, ◌+◌, ◌<◌, ◌≡◌, ◌⊎◌, inl, inr, refl, ap, sym, ◌∙◌, String, not, ◌&&◌, Option, none, some, [],
  ◌∷◌, ◌++◌, arith, or_else, Bool-cases, Option-cases, ltb, is_some,
}
use syncali.Coordinator.Tables.{Tables, Entry, CoordinatorState, ok, ok-injective, ok-split}
use syncali.Coordinator.MutationStore.Model.{
  Batch, Mutation, CommitContext, SocketSession, accepted, current_revision, allocate_cursor,
  history_before,
}
use syncali.Coordinator.MutationStore.Versions.{capture_before, capture_auto}
use syncali.Coordinator.MutationStore.{
  apply_mutation, entry_row, write_entry, hold_next_blob, release_current_blob,
}

abbrev pub cursor_of : Option CoordinatorState → ℕ
cursor_of none = 0
cursor_of (some s) = s.current_cursor

-- The last cursor given out.
abbrev pub top : Batch → ℕ
top s = or_else s.next_cursor (cursor_of s.tables.coordinator_state)

-- The tables agree but for the versions.
pub record SameRows (t u : Tables) : Type 0 where
  pub blobs : u.blobs ≡ t.blobs
  pub entries : u.entries ≡ t.entries
  pub coordinator_state : u.coordinator_state ≡ t.coordinator_state

record OnlyVersions (s u : Batch) : Type 0 where
  rows : SameRows s.tables u.tables
  initial_cursor : u.initial_cursor ≡ s.initial_cursor
  next_cursor : u.next_cursor ≡ s.next_cursor
  results : u.results ≡ s.results

abbrev same_rows :
    {t u : Tables}
    → u.blobs ≡ t.blobs
    → u.entries ≡ t.entries
    → u.coordinator_state ≡ t.coordinator_state
    → SameRows t u
same_rows p q r = record { blobs = p; entries = q; coordinator_state = r }

capture_before-OnlyVersions :
    (c : CommitContext) (m : Mutation) (current : Option Entry) (s : Batch)
    → OnlyVersions s (capture_before c m current s)
unfolding capture_before
capture_before-OnlyVersions c m none s = record {
  rows = same_rows refl refl refl;
  initial_cursor = refl;
  next_cursor = refl;
  results = refl;
}
capture_before-OnlyVersions c m (some e) s = elim (Option-cases (history_before c m)) [
  | inl x ↦
      rw (x, capture_before)
        (record {
          rows = same_rows refl refl refl;
          initial_cursor = refl;
          next_cursor = refl;
          results = refl;
        })
  | inr (r, x) ↦
      rw (x, capture_before)
        (record {
          rows = same_rows refl refl refl;
          initial_cursor = refl;
          next_cursor = refl;
          results = refl;
        })
]

capture_auto-OnlyVersions :
    (c : CommitContext) (m : Mutation) (revision : ℕ) (s : Batch)
    → OnlyVersions s (capture_auto c m revision s)
unfolding capture_auto
capture_auto-OnlyVersions c m revision s =
    elim (Bool-cases (not (is_some (history_before c m)) && ltb 0 m.base_revision)) [
      | inl x ↦
          rw (x, capture_auto)
            (record {
              rows = same_rows refl refl refl;
              initial_cursor = refl;
              next_cursor = refl;
              results = refl;
            })
      | inr x ↦
          rw (x, capture_auto)
            (record {
              rows = same_rows refl refl refl;
              initial_cursor = refl;
              next_cursor = refl;
              results = refl;
            })
    ]

-- The cursors of a batch: none is taken, or they are counted up from the state's row.
abbrev pub Started : Option ℕ → Option ℕ → Option CoordinatorState → Type 0
Started initial next state =
    (next ≡ none)
    ⊎ ((st : CoordinatorState) × (n : ℕ) × (state ≡ some st)
        × (initial ≡ some st.current_cursor)
        × (next ≡ some n)
        × (st.current_cursor < n))

pub record Allocated (s : Batch) (cursor : ℕ) (u : Batch) : Type 0 where
  pub tables : u.tables ≡ s.tables
  pub results : u.results ≡ s.results
  pub counted : cursor ≡ top s + 1
  pub next_cursor : u.next_cursor ≡ some cursor

pub allocate_cursor-Allocated :
    (session : SocketSession) (s : Batch) (cursor : ℕ) (u : Batch)
    → allocate_cursor session s ≡ ok (cursor, u)
    → Allocated s cursor u
unfolding allocate_cursor
allocate_cursor-Allocated session s cursor u h = ground arith

pub allocate_cursor-Started :
    (session : SocketSession) (s : Batch) (cursor : ℕ) (u : Batch)
    → allocate_cursor session s ≡ ok (cursor, u)
    → Started s.initial_cursor s.next_cursor s.tables.coordinator_state
    → Started u.initial_cursor u.next_cursor u.tables.coordinator_state
unfolding allocate_cursor
allocate_cursor-Started session s cursor u h (inr (st, n, a, b, d, lt)) =
    inr (st, n + 1, ground arith, ground arith, ground arith, ground arith)
allocate_cursor-Started session s cursor u h (inl e) =
    elim (Option-cases s.tables.coordinator_state) [
      | inl f ↦ absurd (ground arith)
      | inr (st, f) ↦
          inr (st, st.current_cursor + 1, ground arith, ground arith, ground arith, ground arith)
    ]

-- What applying a mutation wrote: `middle` has the new row, and its blobs as they were.
pub record Shape (c : CommitContext) (m : Mutation) (id : String) (current : Option Entry)
    (s u : Batch) : Type 0 where
  pub cursor : ℕ
  pub middle : Tables
  pub counted : cursor ≡ top s + 1
  pub next_cursor : u.next_cursor ≡ some cursor
  pub results :
      u.results ≡ s.results ++ accepted id cursor m.entry_id (current_revision current + 1) ∷ []
  pub started :
      Started s.initial_cursor s.next_cursor s.tables.coordinator_state
      → Started u.initial_cursor u.next_cursor s.tables.coordinator_state
  pub blobs : middle.blobs ≡ s.tables.blobs
  pub entries :
      middle.entries
      ≡ write_entry (entry_row c m id (current_revision current + 1) cursor) s.tables.entries
  pub coordinator_state : middle.coordinator_state ≡ s.tables.coordinator_state
  pub tables : u.tables ≡ release_current_blob c m current (hold_next_blob m middle)

pub apply_mutation-Shape :
    (c : CommitContext) (m : Mutation) (id : String) (current : Option Entry) (s u : Batch)
    → apply_mutation c m id current s ≡ ok u
    → Shape c m id current s u
unfolding apply_mutation
apply_mutation-Shape c m id current s u h =
    let s₀ = capture_before c m current s in
    let revision = current_revision current + 1 in
    let (first, e, rest) = ok-split (allocate_cursor c.session s₀) _ h in
    let cursor = first.0 in
    let s₁ = first.1 in
    let written : Batch = record s₁ {
      tables = record (s₁.tables) {
        entries = write_entry (entry_row c m id revision cursor) s₁.tables.entries;
      };
    } in
    let s₂ = capture_auto c m revision written in
    let v₀ = capture_before-OnlyVersions c m current s in
    let v₁ = allocate_cursor-Allocated c.session s₀ cursor s₁ e in
    let v₂ = capture_auto-OnlyVersions c m revision written in
    let out = ok-injective _ _ rest in
    record {
      cursor = cursor;
      middle = s₂.tables;
      counted = ground arith;
      next_cursor = sym (ap (λ x. x.next_cursor) out) ∙ v₂.next_cursor ∙ v₁.next_cursor;
      results = ground arith;
      started =
          λ st. ground (arith, allocate_cursor-Started c.session s₀ cursor s₁ e (ground arith));
      blobs = v₂.rows.blobs ∙ ap (λ t. t.blobs) v₁.tables ∙ v₀.rows.blobs;
      entries =
          v₂.rows.entries
          ∙ ap (write_entry (entry_row c m id revision cursor))
              (ap (λ t. t.entries) v₁.tables ∙ v₀.rows.entries);
      coordinator_state =
          v₂.rows.coordinator_state
          ∙ ap (λ t. t.coordinator_state) v₁.tables
          ∙ v₀.rows.coordinator_state;
      tables = sym (ap (λ x. x.tables) out);
    }
