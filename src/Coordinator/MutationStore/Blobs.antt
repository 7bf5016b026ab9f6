-- ===== src/Coordinator/MutationStore/Blobs.antt =====
-- What a commit does to the blobs that entries and versions name.
use syncali.Prelude.{
  ℕ, ◌+◌, ◌≡◌, ◌∙◌, inl, inr, refl, sym, ap, subst, String, Bool, true, false, not, ◌&&◌, Option,
  none, some, List, [], ◌∷◌, ◌++◌, arith, All, truthy, has, trim, refers, ltb, is_some, same,
  Bool-cases, Option-cases, ◌==◌,
}
use syncali.Coordinator.Tables.{Tables, Entry, EntryVersion, ok, ok-injective, ok-split}
use syncali.Coordinator.BlobStore.{
  mark_blob_live, mark_blob_pending_delete_if_unreferenced, restage_pending_delete_blob,
  read_blob_state, is_pending_delete,
}
use syncali.Coordinator.MutationStore.Model.{
  Batch, Mutation, CommitContext, allocate_cursor, find_entry, next_blob_id, current_blob_id,
  current_revision, history_before,
}
use syncali.Coordinator.MutationStore.Versions.{
  capture_before, capture_auto, insert_entry_version, before_version, after_version,
}
use syncali.Coordinator.MutationStore.Shape.{allocate_cursor-Allocated}
use syncali.Coordinator.MutationStore.Entries.{write_entry-All}
use syncali.Coordinator.MutationStore.{
  apply_mutation, entry_row, write_entry, hold_next_blob, release_current_blob, commit_with_blob,
  commit_at_revision, commit_unless_applied, commit_one, save_cursor,
}

-- The rows that name blobs stay.
pub record SameNames (t u : Tables) : Type 0 where
  pub entries : u.entries ≡ t.entries
  pub entry_versions : u.entry_versions ≡ t.entry_versions

released-SameNames :
    (c : CommitContext) (m : Mutation) (current : Option Entry) (t : Tables)
    → SameNames t (release_current_blob c m current (hold_next_blob m t))
unfolding release_current_blob hold_next_blob mark_blob_live
    mark_blob_pending_delete_if_unreferenced
released-SameNames c m current t = record { entries = ground arith; entry_versions = ground arith }

pub save_cursor-SameNames : (now : ℕ) (s : Batch) → SameNames s.tables (save_cursor now s)
unfolding save_cursor
save_cursor-SameNames now s = record { entries = ground arith; entry_versions = ground arith }

-- `P` holds of every blob that an entry names, and `Q` of every version.
module _ (P : Option String → Type 0) (Q : EntryVersion → Type 0)
    (keep : (v : EntryVersion) → P v.blob_id → Q v) where
  pub record Names (t : Tables) : Type 0 where
    pub entries : All (λ e. P e.blob_id) t.entries
    pub versions : All Q t.entry_versions

  pub SameNames-Names : (t u : Tables) → SameNames t u → Names t → Names u
  SameNames-Names t u k h = record {
    entries = rw k.entries h.entries;
    versions = rw k.entry_versions h.versions;
  }

  All-append : (vs : List EntryVersion) (v : EntryVersion) → All Q vs → Q v → All Q (vs ++ v ∷ [])
  All-append [] v h k = (k, tt)
  All-append (w ∷ vs) v h k = (h.0, All-append vs v h.1 k)

  insert-All :
      (v : EntryVersion) (ignore_conflict : Bool) (vs : List EntryVersion)
      → Q v
      → All Q vs
      → All Q (insert_entry_version v ignore_conflict vs).0
  unfolding insert_entry_version
  insert-All v ignore_conflict vs k h = ground (arith, All-append vs v h k)

  capture_before-Names :
      (c : CommitContext) (m : Mutation) (current : Option Entry) (s : Batch)
      → P (current_blob_id current)
      → Names s.tables
      → Names (capture_before c m current s).tables
  unfolding capture_before
  capture_before-Names c m none s p h = h
  capture_before-Names c m (some e) s p h = elim (Option-cases (history_before c m)) [
    | inl x ↦ rw (x, capture_before) h
    | inr (r, x) ↦
        rw (x, capture_before)
          (record {
            entries = h.entries;
            versions =
                insert-All (before_version c m e r s.drawn) false s.tables.entry_versions (keep _ p)
                  h.versions;
          })
  ]

  capture_auto-Names :
      (c : CommitContext) (m : Mutation) (revision : ℕ) (s : Batch)
      → P (next_blob_id m)
      → Names s.tables
      → Names (capture_auto c m revision s).tables
  unfolding capture_auto
  capture_auto-Names c m revision s p h =
      elim (Bool-cases (not (is_some (history_before c m)) && ltb 0 m.base_revision)) [
        | inl x ↦
            rw (x, capture_auto)
              (record {
                entries = h.entries;
                versions =
                    insert-All (after_version c m revision s.drawn) true s.tables.entry_versions
                      (keep _ p) h.versions;
              })
        | inr x ↦ rw (x, capture_auto) h
      ]

  apply_mutation-Names :
      (c : CommitContext) (m : Mutation) (id : String) (current : Option Entry) (s u : Batch)
      → apply_mutation c m id current s ≡ ok u
      → P (next_blob_id m)
      → P (current_blob_id current)
      → Names s.tables
      → Names u.tables
  unfolding apply_mutation
  apply_mutation-Names c m id current s u e p q h =
      let s₀ = capture_before c m current s in
      let revision = current_revision current + 1 in
      let (first, f, rest) = ok-split (allocate_cursor c.session s₀) _ e in
      let s₁ = first.1 in
      let row = entry_row c m id revision first.0 in
      let written : Batch = record s₁ {
        tables = record (s₁.tables) { entries = write_entry row s₁.tables.entries };
      } in
      let s₂ = capture_auto c m revision written in
      let h₀ = capture_before-Names c m current s q h in
      let h₁ : Names s₁.tables =
        subst Names (sym (allocate_cursor-Allocated c.session s₀ first.0 s₁ f).tables) h₀ in
      let hw : Names written.tables = record {
        entries = write_entry-All row (λ x. P x.blob_id) s₁.tables.entries (λ _. p) h₁.entries;
        versions = h₁.versions;
      } in
      let h₂ = capture_auto-Names c m revision written p hw in
      subst Names (ap (λ x. x.tables) (ok-injective _ _ rest))
        (SameNames-Names s₂.tables _ (released-SameNames c m current s₂.tables) h₂)

  found-Names :
      (id : String) (es : List Entry)
      → P none
      → All (λ e. P e.blob_id) es
      → P (current_blob_id (find_entry id es))
  unfolding find_entry
  found-Names id [] p h = p
  found-Names id (e ∷ es) p h = elim (Bool-cases (same e.entry_id id)) [
    | inl x ↦ rw (x, find_entry) h.0
    | inr x ↦ rw (x, find_entry) (found-Names id es p h.1)
  ]

  -- A branch that answers at once.
  answered-Names :
      (s v u : Batch) → v.tables ≡ s.tables → ok v ≡ ok u → Names s.tables → Names u.tables
  answered-Names s v u k e h = subst Names (sym k ∙ ap (λ x. x.tables) (ok-injective v u e)) h

  module _ (c : CommitContext) (m : Mutation)
      (free : truthy (next_blob_id m) ≡ none → P (next_blob_id m))
      (available : (b : String)
        → truthy (next_blob_id m) ≡ some b
        → has c.unavailable_blob_ids b ≡ false
        → P (next_blob_id m)) where
    commit_with_blob-Names :
        (id : String) (current : Option Entry) (s u : Batch)
        → commit_with_blob c m id current s ≡ ok u
        → P (current_blob_id current)
        → Names s.tables
        → Names u.tables
    unfolding commit_with_blob restage_pending_delete_blob
    commit_with_blob-Names id current s u e q h = elim (Option-cases (truthy (next_blob_id m))) [
      | inl x ↦ apply_mutation-Names c m id current s u (rw (x, commit_with_blob) at e) (free x) q h
      | inr (b, x) ↦
          let e₁ = rw (x, commit_with_blob) at e in
          elim (Bool-cases (has c.unavailable_blob_ids b)) [
            | inl y ↦ answered-Names s _ u refl (rw y at e₁) h
            | inr y ↦
                let e₂ = rw y at e₁ in
                let p = available b x y in
                elim (Option-cases (read_blob_state s.tables b)) [
                  | inl z ↦ answered-Names s _ u refl (rw z at e₂) h
                  | inr (state, z) ↦
                      let e₃ = rw z at e₂ in
                      elim (Bool-cases (is_pending_delete state)) [
                        | inl w ↦
                            apply_mutation-Names c m id current _ u (rw w at e₃) p q
                              (record { entries = h.entries; versions = h.versions })
                        | inr w ↦ apply_mutation-Names c m id current s u (rw w at e₃) p q h
                      ]
                ]
          ]
    ]

    commit_at_revision-Names :
        (id : String) (current : Option Entry) (s u : Batch)
        → commit_at_revision c m id current s ≡ ok u
        → P (current_blob_id current)
        → Names s.tables
        → Names u.tables
    unfolding commit_at_revision
    commit_at_revision-Names id current s u e q h =
        elim (Bool-cases (current_revision current == m.base_revision)) [
          | inl x ↦ commit_with_blob-Names id current s u (rw (x, commit_at_revision) at e) q h
          | inr x ↦ answered-Names s _ u refl (rw (x, commit_at_revision) at e) h
        ]

    commit_unless_applied-Names :
        (id : String) (current : Option Entry) (s u : Batch)
        → commit_unless_applied c m id current s ≡ ok u
        → P (current_blob_id current)
        → Names s.tables
        → Names u.tables
    unfolding commit_unless_applied
    commit_unless_applied-Names id none s u e q h = commit_at_revision-Names id none s u e q h
    commit_unless_applied-Names id (some row) s u e q h =
        elim (Bool-cases (refers id row.last_mutation_id)) [
          | inl x ↦ answered-Names s _ u refl (rw (x, commit_unless_applied) at e) h
          | inr x ↦
              commit_at_revision-Names id (some row) s u (rw (x, commit_unless_applied) at e) q h
        ]

    pub commit_one-Names :
        (s u : Batch) → commit_one c m s ≡ ok u → P none → Names s.tables → Names u.tables
    unfolding commit_one
    commit_one-Names s u e n h = elim (Bool-cases (has s.seen_mutation_ids (trim m.mutation_id))) [
      | inl x ↦ answered-Names s _ u refl (rw (x, commit_one) at e) h
      | inr x ↦
          commit_unless_applied-Names (trim m.mutation_id) _ _ u (rw (x, commit_one) at e)
            (found-Names m.entry_id s.tables.entries n h.entries)
            (record { entries = h.entries; versions = h.versions })
    ]
