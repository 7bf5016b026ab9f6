-- ===== src/Engine/PullPlan/Placed/Whole.antt =====
-- The whole manifest, one item after another.
use syncali.Prelude.{
  ℕ, ◌+◌, ◌<◌, ◌≤◌, ◌≡◌, ◌≢◌, refl, ap, ◌∙◌, String, Option, none, some, is_some, truthy, Bool,
  true, false, not, List, [], ◌∷◌, length, arith, All, has, least, Bool-cases, inl, inr,
}
use syncali.MutationQueue.{PendingMutationRow}
use syncali.Paths.Units.{Units, equal, equal→eq, equal_refl, contains}
use syncali.Paths.ConflictFile.{LocalTime}
use syncali.Engine.PullPlan.{
  PullEntryStateManifestItem, SyncedEntryMetadata, PullManifestStore, ReservedPaths, reserved_by,
  is_reserved, id_of, ids_where, seqs_where, is_deferred_by_cursor_threshold,
}
use syncali.Engine.PullPlan.Deferral.{IsWellFormed, deferred_entry_ids-total}
use syncali.Engine.PullPlan.Placed.{
  Placement, planned, put_off, rolled_back, PlannedManifest, add_path, reserve_path, reserve,
  combine, plan_items, plan_undeferred, plan_manifest,
}
use syncali.Engine.PullPlan.Placed.Planned.{
  final_paths, AreDistinct, IsPlacedPlan, AreNamed, Good, AreShared, no_items, to_plan, to_later,
  to_rollback,
}
use syncali.Engine.PullPlan.Placed.Sound.{plan_item-Good}

-- A plan for the items that keeps off the paths in `reserved`.
pub record IsPlanned (store : PullManifestStore) (exists : Units → Bool) (reserved : ReservedPaths)
    (items : List PullEntryStateManifestItem) (m : PlannedManifest) : Type 0 where
  pub distinct : AreDistinct (final_paths m.plans)
  pub apart :
      (path : Units)
      → is_reserved reserved path ≡ true
      → contains (final_paths m.plans) path ≡ false
  pub placed : All (IsPlacedPlan store exists) m.plans
  pub shared : AreShared store items m.plans m.deferred m.rollbacks

reserve_path-named :
    (o : Option Units) (id : String) (reserved : ReservedPaths)
    → is_some (truthy (some id)) ≡ true
    → AreNamed reserved
    → AreNamed (reserve_path o id reserved)
reserve_path-named none id reserved full named path = named path
reserve_path-named (some own) id reserved full named path =
    unfold reserved_by in
    (elim (Bool-cases (equal path own)) [
      | inl here ↦ rw here full
      | inr elsewhere ↦ rw elsewhere (named path)
    ])

length-reserve_path :
    (o : Option Units) (id : String) (reserved : ReservedPaths)
    → length (reserve_path o id reserved) ≤ length reserved + 1
length-reserve_path none id reserved = omega arith
length-reserve_path (some path) id reserved = omega arith

-- A path that was not reserved joins paths that keep off it.
add_path-lem :
    (o : Option Units) (id : String) (reserved : ReservedPaths) (paths : List Units)
    → ((path : Units) → o ≡ some path → is_reserved reserved path ≡ false)
    → AreDistinct paths
    → ((path : Units)
        → is_reserved (reserve_path o id reserved) path ≡ true
        → contains paths path ≡ false)
    → AreDistinct (add_path o paths)
      × ((path : Units)
          → is_reserved reserved path ≡ true
          → contains (add_path o paths) path ≡ false)
add_path-lem none id reserved paths free distinct apart = (distinct, apart)
add_path-lem (some own) id reserved paths free distinct apart = (
  (apart own (unfold reserved_by in rw (equal_refl own) refl), distinct),
  λ path h. elim (Bool-cases (equal path own)) [
    | inl same_path ↦
        absurd
          (let e = equal→eq path own same_path in let k = free own refl in let l = rw e at h in cc)
    | inr other ↦ unfold contains in (rw other (apart path (unfold reserved_by in rw other h)))
  ],
)

module _ (store : PullManifestStore) (decrypt : PendingMutationRow → Option SyncedEntryMetadata)
    (decrypts : (pending : PendingMutationRow) → decrypt pending ≢ none) (exists : Units → Bool)
    (now : LocalTime) (fuel : ℕ) (files : List Units)
    (listed : (file : Units) → exists file ≡ true → contains files file ≡ true) where
  combine-IsPlanned :
      (p : Placement) (item : PullEntryStateManifestItem) (reserved : ReservedPaths)
      (items : List PullEntryStateManifestItem) (m : PlannedManifest)
      → Good store exists reserved item p
      → IsPlanned store exists (reserve p reserved) items m
      → (all : PlannedManifest) × (combine p item (some m) ≡ some all)
        × IsPlanned store exists reserved (item ∷ items) all
  combine-IsPlanned put_off item reserved items m good rest = (
    record m { deferred = item ∷ m.deferred },
    refl,
    record {
      distinct = rest.distinct;
      apart = unfold reserve in rest.apart;
      placed = rest.placed;
      shared = to_later rest.shared;
    },
  )
  combine-IsPlanned (rolled_back event) item reserved items m good rest = (
    record m { rollbacks = event ∷ m.rollbacks },
    refl,
    record {
      distinct = rest.distinct;
      apart = unfold reserve in rest.apart;
      placed = rest.placed;
      shared = to_rollback good rest.shared;
    },
  )
  combine-IsPlanned (planned plan) item reserved items m good rest =
      let (distinct', apart') =
        add_path-lem plan.final_path plan.state.entry_id reserved (final_paths m.plans) good.1
          rest.distinct (unfold reserve in rest.apart) in
      (
        record m { plans = plan ∷ m.plans },
        refl,
        record {
          distinct = distinct';
          apart = apart';
          placed = (good.0, rest.placed);
          shared = to_plan good.2 good.3 rest.shared;
        },
      )

  reserve-AreNamed :
      (p : Placement) (item : PullEntryStateManifestItem) (reserved : ReservedPaths)
      → IsWellFormed item
      → Good store exists reserved item p
      → AreNamed reserved
      → AreNamed (reserve p reserved)
  unfolding reserve
  reserve-AreNamed put_off item reserved v good named = named
  reserve-AreNamed (rolled_back event) item reserved v good named = named
  reserve-AreNamed (planned plan) item reserved v good named =
      reserve_path-named plan.final_path plan.state.entry_id reserved
        (ap (λ state. is_some (truthy (some state.entry_id))) good.2 ∙ v.named) named

  length-reserve :
      (p : Placement) (reserved : ReservedPaths) → length (reserve p reserved) ≤ length reserved + 1
  unfolding reserve
  length-reserve put_off reserved = omega arith
  length-reserve (rolled_back event) reserved = omega arith
  length-reserve (planned plan) reserved =
      length-reserve_path plan.final_path plan.state.entry_id reserved

  plan_items-IsPlanned :
      (put_off_external : Bool) (threshold : Option ℕ) (delta : List String)
      (items : List PullEntryStateManifestItem) (reserved : ReservedPaths)
      → All IsWellFormed items
      → AreNamed reserved
      → length reserved + length items + length files + 1 < fuel
      → (m : PlannedManifest) × (plan_items store decrypt exists now fuel put_off_external threshold
            delta reserved items
          ≡ some m)
        × IsPlanned store exists reserved items m
  unfolding plan_items
  plan_items-IsPlanned put_off_external threshold delta [] reserved v named enough = (
    _,
    refl,
    record {
      distinct = tt;
      apart = λ path h. unfold contains in refl;
      placed = tt;
      shared = no_items;
    },
  )
  plan_items-IsPlanned put_off_external threshold delta (item ∷ items) reserved v named enough =
      let (p, e, good) =
        plan_item-Good store decrypt decrypts exists now fuel files listed put_off_external
          threshold delta reserved item v.0 named (omega arith) in
      let (m, found, rest) =
        plan_items-IsPlanned put_off_external threshold delta items (reserve p reserved) v.1
          (reserve-AreNamed p item reserved v.0 good named)
          (omega (arith, length-reserve p reserved)) in
      let (all, joined, whole) = combine-IsPlanned p item reserved items m good rest in
      (all, rw (e, plan_items) (ap (combine p item) found ∙ joined), whole)

  -- A manifest is always planned, if its items are well formed, decryption does not throw, and the
  -- fuel is above the numbers of items and files together. No two planned entries are written to
  -- one path. No planned entry goes back to an older revision than the store's. Each goes to its own
  -- path, or to a conflict path that no file has. And the items are shared out in their order: each
  -- is planned with its state and metadata, put off, or rejected, and it is rejected only where the
  -- store has a later revision, with an event that names both revisions.
  pub plan_manifest-IsPlanned :
      (put_off_external : Bool) (manifest : List PullEntryStateManifestItem)
      → All IsWellFormed manifest
      → length manifest + length files + 1 < fuel
      → (m : PlannedManifest) × (plan_manifest store decrypt exists now fuel put_off_external
            manifest
          ≡ some m)
        × AreDistinct (final_paths m.plans)
        × All (IsPlacedPlan store exists) m.plans
        × AreShared store manifest m.plans m.deferred m.rollbacks
  unfolding plan_manifest plan_undeferred
  plan_manifest-IsPlanned put_off_external manifest v enough =
      let (ids, deferral) =
        deferred_entry_ids-total store decrypt decrypts manifest v put_off_external in
      let threshold = least (seqs_where (λ item. has ids (id_of item)) manifest) in
      let (m, found, sound) =
        plan_items-IsPlanned put_off_external threshold
          (ids_where (λ item. not (is_deferred_by_cursor_threshold item threshold)) manifest)
          manifest [] v (λ path. unfold reserved_by in refl) (omega arith) in
      (m, rw (deferral, plan_manifest) found, sound.distinct, sound.placed, sound.shared)
