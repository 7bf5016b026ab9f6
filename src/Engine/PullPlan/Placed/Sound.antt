-- ===== src/Engine/PullPlan/Placed/Sound.antt =====
-- The plan for one entry of a manifest, branch by branch.
use syncali.Coordinator.EntryStore.{EntryStateRow}
use syncali.Prelude.{
  ◌≤◌, ℕ, ◌+◌, ◌<◌, ◌≡◌, ◌≢◌, refl, sym, ap, ◌∙◌, String, Option, none, some, is_some, truthy, Bool,
  true, false, ◌||◌, ◌&&◌, List, [], ◌∷◌, length, arith, if◌then◌else◌, subst, Bool-cases, inl, inr,
}
use syncali.MutationQueue.{PendingMutationRow}
use syncali.Paths.Units.{Units, contains}
use syncali.Paths.ConflictFile.{LocalTime}
use syncali.Engine.PullPlan.{
  PullEntryStateManifestItem, SyncedEntryMetadata, PullManifestStore, SyncEntryRow,
  AdoptedLocalEntry, PathCollision, ReservedPaths, reserved_by, is_reserved, id_of,
  is_deferred_by_cursor_threshold,
}
use syncali.Engine.PullPlan.Owner.{path_owner-total}
use syncali.Engine.PullPlan.Deferral.{IsWellFormed}
use syncali.Engine.PullPlan.Collision.{collision_path, collision_path_lem}
use syncali.Engine.PullPlan.Placed.{
  Placement, planned, put_off, rolled_back, rollback_event, is_rollback, plan_for, plan_at,
  plan_collided, plan_owned, plan_content, plan_deleted, plan_item,
}
use syncali.Engine.PullPlan.Placed.Planned.{AreNamed, Good, IsRolledBack}

not_rollback :
    (existing : Option SyncEntryRow) (state : EntryStateRow)
    → is_rollback existing state ≡ false
    → (row : SyncEntryRow) → existing ≡ some row
    → row.revision ≤ state.revision
unfolding is_rollback
not_rollback existing state h row e = ground arith

rollback-IsRolledBack :
    (store : PullManifestStore) (item : PullEntryStateManifestItem) (existing : Option SyncEntryRow)
    → store.get_entry_by_id (id_of item) ≡ existing
    → is_rollback existing item.state ≡ true
    → IsRolledBack store item (rollback_event existing item)
unfolding is_rollback rollback_event
rollback-IsRolledBack store item none e h = absurd (cc)
rollback-IsRolledBack store item (some row) e h = record {
  row = row;
  found = e;
  older = ground arith;
  entry_eq = refl;
  local_eq = refl;
  remote_eq = refl;
}

if_true {ℓ} : {A : Type ℓ} (b : Bool) (x y : A) → b ≡ true → (if b then x else y) ≡ x
if_true true x y h = refl
if_true false x y h = cc

if_false {ℓ} : {A : Type ℓ} (b : Bool) (x y : A) → b ≡ false → (if b then x else y) ≡ y
if_false true x y h = cc
if_false false x y h = refl

module _ (store : PullManifestStore) (decrypt : PendingMutationRow → Option SyncedEntryMetadata)
    (decrypts : (pending : PendingMutationRow) → decrypt pending ≢ none) (exists : Units → Bool)
    (now : LocalTime) (fuel : ℕ) (files : List Units)
    (listed : (file : Units) → exists file ≡ true → contains files file ≡ true)
    (item : PullEntryStateManifestItem) (v : IsWellFormed item) (reserved : ReservedPaths)
    (named : AreNamed reserved) (enough : length reserved + length files + 1 < fuel)
    (fresh_revision : is_rollback (store.get_entry_by_id (id_of item)) item.state ≡ false) where
  abbrev existing_row : Option SyncEntryRow
  existing_row = store.get_entry_by_id (id_of item)

  plan_at-cons :
      (hash : String) (adopted : Option AdoptedLocalEntry) (conflict : Option PathCollision)
      (path : Units)
      → path ≢ []
      → plan_at store decrypt exists now fuel item existing_row hash adopted conflict path
        ≡ some (
            planned
              (plan_for store decrypt exists now fuel item existing_row hash adopted conflict path))
  plan_at-cons hash adopted conflict [] full = absurd (full refl)
  plan_at-cons hash adopted conflict (c ∷ path) full = refl

  plan_at-Good :
      (hash : String) (adopted : Option AdoptedLocalEntry)
      → item.state.deleted ≡ false
      → is_reserved reserved item.metadata.path ≡ false
      → (p : Placement) × (plan_at store decrypt exists now fuel item existing_row hash adopted none
            item.metadata.path
          ≡ some p)
        × Good store exists reserved item p
  plan_at-Good hash adopted there free = (
    planned (
        plan_for store decrypt exists now fuel item existing_row hash adopted none
          item.metadata.path),
    plan_at-cons hash adopted none item.metadata.path (v.placed there),
    (
      record {
        known = refl;
        not_older = not_rollback (store.get_entry_by_id (id_of item)) item.state fresh_revision;
        in_place = λ no_conflict h. refl;
        in_free_place = λ conflict h. cc;
      },
      λ path h. subst (λ q. is_reserved reserved q ≡ false) (ground arith) free,
      refl,
      refl,
    ),
  )

  plan_collided-Good :
      (hash : String) (adopted : Option AdoptedLocalEntry)
      → (p : Placement) × (plan_collided store decrypt exists now fuel item existing_row hash
            adopted
            (collision_path exists now fuel reserved item.metadata.path)
          ≡ some p)
        × Good store exists reserved item p
  plan_collided-Good hash adopted =
      let (free, found, absent, unreserved, full) =
        collision_path_lem exists now fuel files reserved item.metadata.path listed enough in
      let collision : PathCollision = record {
        entry_id = id_of item;
        original_path = item.metadata.path;
        conflict_path = free;
      } in
      (
        planned (
            plan_for store decrypt exists now fuel item existing_row hash adopted (some collision)
              free),
        ap (plan_collided store decrypt exists now fuel item existing_row hash adopted) found
            ∙ plan_at-cons hash adopted (some collision) free full,
        (
          record {
            known = refl;
            not_older = not_rollback (store.get_entry_by_id (id_of item)) item.state fresh_revision;
            in_place = λ no_conflict h. cc;
            in_free_place = λ conflict h.
                let same_event : collision ≡ conflict = ground arith in
                (
                  ap (λ (c : PathCollision). some c.conflict_path) same_event,
                  subst (λ (c : PathCollision). exists c.conflict_path ≡ false) same_event absent,
                );
          },
          λ path h. subst (λ q. is_reserved reserved q ≡ false) (ground arith) unreserved,
          refl,
          refl,
        ),
      )

  plan_owned-Good :
      (put_off_external external : Bool) (hash : String) (adopted : Option AdoptedLocalEntry)
      → item.state.deleted ≡ false
      → (p : Placement) × (plan_owned store decrypt exists now fuel put_off_external reserved item
            existing_row hash
            (some (adopted, external))
          ≡ some p)
        × Good store exists reserved item p
  plan_owned-Good put_off_external external hash adopted there =
      elim (Bool-cases (external && put_off_external)) [
        | inl later ↦ (put_off, rw later refl, tt)
        | inr moved ↦
            elim (Bool-cases
              (is_some (truthy (reserved_by reserved item.metadata.path)) || external)) [
                | inl collides ↦
                    let (p, e, good) = plan_collided-Good hash adopted in
                    (p, rw (moved, collides) e, good)
                | inr own ↦
                    let unreserved : is_some (truthy (reserved_by reserved item.metadata.path))
                        ≡ false =
                      ground arith in
                    let (p, e, good) =
                      plan_at-Good hash adopted there
                        (sym (named item.metadata.path) ∙ unreserved) in
                    (p, rw (moved, own) e, good)
              ]
      ]

  plan_content-Good :
      (put_off_external : Bool) (delta : List String) (blob hash : Option String)
      → item.state.deleted ≡ false
      → is_some blob ≡ true
      → is_some hash ≡ true
      → (p : Placement) × (plan_content store decrypt exists now fuel put_off_external reserved
            delta item existing_row blob hash
          ≡ some p)
        × Good store exists reserved item p
  plan_content-Good put_off_external delta none hash there h k = cc
  plan_content-Good put_off_external delta (some blob) none there h k = cc
  plan_content-Good put_off_external delta (some blob) (some hash) there h k =
      let ((adopted, external), e) =
        path_owner-total store decrypt decrypts item.state item.metadata hash delta in
      let (p, planned_so, good) = plan_owned-Good put_off_external external hash adopted there in
      (
        p,
        ap
              (plan_owned store decrypt exists now fuel put_off_external reserved item existing_row
                hash)
              e
            ∙ planned_so,
        good,
      )

  plan_deleted-Good :
      (hash : Option String)
      → item.state.deleted ≡ true
      → hash ≡ none
      → (p : Placement) × (plan_deleted store decrypt exists now fuel item existing_row hash
          ≡ some p)
        × Good store exists reserved item p
  plan_deleted-Good (some hash) gone h = cc
  plan_deleted-Good none gone h = (
    _,
    refl,
    (
      record {
        known = refl;
        not_older = not_rollback (store.get_entry_by_id (id_of item)) item.state fresh_revision;
        in_place = λ no_conflict there. cc;
        in_free_place = λ conflict k. cc;
      },
      λ path k. cc,
      refl,
      refl,
    ),
  )

module _ (store : PullManifestStore) (decrypt : PendingMutationRow → Option SyncedEntryMetadata)
    (decrypts : (pending : PendingMutationRow) → decrypt pending ≢ none) (exists : Units → Bool)
    (now : LocalTime) (fuel : ℕ) (files : List Units)
    (listed : (file : Units) → exists file ≡ true → contains files file ≡ true) where
  pub plan_item-Good :
      (put_off_external : Bool) (threshold : Option ℕ) (delta : List String)
      (reserved : ReservedPaths) (item : PullEntryStateManifestItem)
      → IsWellFormed item
      → AreNamed reserved
      → length reserved + length files + 1 < fuel
      → (p : Placement) × (plan_item store decrypt exists now fuel put_off_external threshold delta
            reserved item
          ≡ some p)
        × Good store exists reserved item p
  unfolding plan_item
  plan_item-Good put_off_external threshold delta reserved item v named enough =
      elim (Bool-cases (is_deferred_by_cursor_threshold item threshold)) [
        | inl later ↦ (put_off, rw later refl, tt)
        | inr now_on ↦
            elim (Bool-cases (is_rollback (store.get_entry_by_id (id_of item)) item.state)) [
              | inl old ↦ (
                rolled_back (rollback_event (store.get_entry_by_id (id_of item)) item),
                rw (now_on, old) refl,
                rollback-IsRolledBack store item (store.get_entry_by_id (id_of item)) refl old,
              )
              | inr fresh_revision ↦ elim (Bool-cases item.state.deleted) [
                | inl gone ↦
                    let (p, e, good) =
                      plan_deleted-Good store decrypt decrypts exists now fuel files listed item v
                        reserved named enough fresh_revision item.metadata.hash gone
                        (v.emptied gone) in
                    (p, rw (now_on, fresh_revision) (if_true _ _ _ gone ∙ e), good)
                | inr there ↦
                    let (p, e, good) =
                      plan_content-Good store decrypt decrypts exists now fuel files listed item v
                        reserved named enough fresh_revision put_off_external delta
                        (truthy item.state.blob_id) (truthy item.metadata.hash) there
                        (v.filled there).0 (v.filled there).1 in
                    (p, rw (now_on, fresh_revision) (if_false _ _ _ there ∙ e), good)
              ]
            ]
      ]
