-- ===== src/Coordinator/History/Purging.antt =====
-- What a purge of deleted entries removes, and which blobs it hands to the collector.
use syncali.Prelude.{
  ℕ, ◌≡◌, ◌∙◌, refl, sym, ap, String, Bool, true, false, not, ◌||◌, List, [], ◌∷◌, ◌++◌, arith,
  same, All, All-map, delete_where, Bool-cases, Option-cases, inl, inr, subst,
}
use syncali.Coordinator.Tables.{Tables, EntryVersion}
use syncali.Coordinator.History.{
  PurgeEntry, PurgeCode, PurgeResult, purged, rejected, Purge, add_candidates, purge_refusal,
  purge_one, purge_all, purge_deleted_entry_versions,
}
use syncali.Coordinator.History.Candidates.{is_candidate, is_candidate_mono, add_candidates-Covers}

-- The entry is among those that the results accept.
unfoldable pub was_purged : List PurgeResult → String → Bool
was_purged [] id = false
was_purged (purged entry_id ∷ rs) id = same id entry_id || was_purged rs id
was_purged (rejected entry_id code ∷ rs) id = was_purged rs id

-- What a purge has done to the tables `t`: the entries are as before, exactly the versions of the
-- accepted entries are gone, and their blobs are candidates for the collector.
pub record IsPurged (t : Tables) (p : Purge) : Type 0 where
  pub entries : p.tables.entries ≡ t.entries
  pub versions :
      p.tables.entry_versions ≡ delete_where (λ v. was_purged p.results v.entry_id) t.entry_versions
  pub candidates :
      All
        (λ v.
          (not (was_purged p.results v.entry_id) || is_candidate p.candidate_blob_ids v.blob_id)
          ≡ true)
        t.entry_versions

delete_where-or {ℓ} :
    {A : Type ℓ} (p q : A → Bool) (xs : List A)
    → delete_where q (delete_where p xs) ≡ delete_where (λ x. p x || q x) xs
unfolding delete_where
delete_where-or p q [] = refl
delete_where-or p q (x ∷ xs) = ground (arith, delete_where-or p q xs)

-- What holds of the rows that are left holds of the rows that are not deleted.
All-left {ℓ κ} :
    {A : Type ℓ} (P : A → Type κ) (p : A → Bool) (xs : List A)
    → All P (delete_where p xs)
    → All (λ x. p x ≡ false → P x) xs
unfolding delete_where
All-left P p [] h = tt
All-left P p (x ∷ xs) h = elim (Bool-cases (p x)) [
  | inl e ↦ (λ f. absurd (ground arith), All-left P p xs (rw e at h))
  | inr e ↦ (λ f. (rw e at h).0, All-left P p xs (rw e at h).1)
]

was_purged-append :
    (rs : List PurgeResult) (r : PurgeResult) (id : String)
    → was_purged (rs ++ r ∷ []) id ≡ (was_purged rs id || was_purged (r ∷ []) id)
unfolding was_purged
was_purged-append [] r id = ground arith
was_purged-append (purged i ∷ rs) r id = ground (arith, was_purged-append rs r id)
was_purged-append (rejected i c ∷ rs) r id = was_purged-append rs r id

All-both {ℓ κ} :
    {A : Type ℓ} {P Q R : A → Type κ} (xs : List A)
    → ((x : A) → P x → Q x → R x)
    → All P xs
    → All Q xs
    → All R xs
All-both [] f h k = tt
All-both (x ∷ xs) f h k = (f x h.0 k.0, All-both xs f h.1 k.1)

delete_where-eq {ℓ} :
    {A : Type ℓ} (p q : A → Bool) (xs : List A)
    → ((x : A) → p x ≡ q x)
    → delete_where p xs ≡ delete_where q xs
unfolding delete_where
delete_where-eq p q [] h = refl
delete_where-eq p q (x ∷ xs) h = ground (arith, h x, delete_where-eq p q xs h)

was_purged-rejected :
    (rs : List PurgeResult) (entry_id : String) (code : PurgeCode) (id : String)
    → was_purged (rs ++ rejected entry_id code ∷ []) id ≡ was_purged rs id
unfolding was_purged
was_purged-rejected rs entry_id code id =
    ground (arith, was_purged-append rs (rejected entry_id code) id)

was_purged-purged :
    (rs : List PurgeResult) (entry_id id : String)
    → was_purged (rs ++ purged entry_id ∷ []) id ≡ (was_purged rs id || same id entry_id)
unfolding was_purged
was_purged-purged rs entry_id id = ground (arith, was_purged-append rs (purged entry_id) id)

-- An entry that is refused, and one that is purged, leave what the loop is to establish.
refused-IsPurged :
    (t : Tables) (entry_id : String) (code : PurgeCode) (p : Purge)
    → IsPurged t p
    → IsPurged t (record p { results = p.results ++ rejected entry_id code ∷ [] })
refused-IsPurged t entry_id code p h = record {
  entries = h.entries;
  versions =
      h.versions
      ∙ delete_where-eq _ _ t.entry_versions
          (λ v. sym (was_purged-rejected p.results entry_id code v.entry_id));
  candidates =
      All-map t.entry_versions
        (λ v k. rw (was_purged-rejected p.results entry_id code v.entry_id) k) h.candidates;
}

still_candidate :
    (rs : List PurgeResult) (entry_id : String) (vs : List EntryVersion) (ids : List String)
    (v : EntryVersion)
    → (not (was_purged rs v.entry_id) || is_candidate ids v.blob_id) ≡ true
    → (was_purged rs v.entry_id ≡ false
        → same v.entry_id entry_id ≡ true
        → is_candidate (add_candidates entry_id vs ids) v.blob_id ≡ true)
    → (not (was_purged (rs ++ purged entry_id ∷ []) v.entry_id)
        || is_candidate (add_candidates entry_id vs ids) v.blob_id)
      ≡ true
still_candidate rs entry_id vs ids v a b =
    rw (was_purged-purged rs entry_id v.entry_id) (elim (Bool-cases (was_purged rs v.entry_id)) [
      | inl e ↦ rw e (is_candidate_mono entry_id vs ids v.blob_id (rw e at a))
      | inr e ↦ elim (Bool-cases (same v.entry_id entry_id)) [
        | inl f ↦ rw (e, f) (b e f)
        | inr f ↦ rw (e, f) refl
      ]
    ])

purged-IsPurged :
    (t : Tables) (entry_id : String) (p : Purge)
    → IsPurged t p
    → IsPurged t (record {
      tables = record (p.tables) {
        entry_versions = delete_where (λ v. same v.entry_id entry_id) p.tables.entry_versions;
      };
      results = p.results ++ purged entry_id ∷ [];
      candidate_blob_ids = add_candidates entry_id p.tables.entry_versions p.candidate_blob_ids;
    })
purged-IsPurged t entry_id p h =
    let vs = p.tables.entry_versions in
    let left = λ (v : EntryVersion).
      same v.entry_id entry_id ≡ true
      → is_candidate (add_candidates entry_id vs p.candidate_blob_ids) v.blob_id ≡ true in
    let covered : All left vs = add_candidates-Covers entry_id vs p.candidate_blob_ids in
    record {
      entries = h.entries;
      versions =
          ap (delete_where (λ v. same v.entry_id entry_id)) h.versions
          ∙ delete_where-or (λ v. was_purged p.results v.entry_id) (λ v. same v.entry_id entry_id)
              t.entry_versions
          ∙ delete_where-eq _ _ t.entry_versions
              (λ v. sym (was_purged-purged p.results entry_id v.entry_id));
      candidates =
          All-both t.entry_versions
            (λ v a b. still_candidate p.results entry_id vs p.candidate_blob_ids v a b) h.candidates
            (All-left left (λ v. was_purged p.results v.entry_id) t.entry_versions
              (subst (All left) h.versions covered));
    }

purge_one-IsPurged :
    (t : Tables) (retention_start : ℕ) (entry : PurgeEntry) (p : Purge)
    → IsPurged t p
    → IsPurged t (purge_one retention_start entry p)
unfolding purge_one
purge_one-IsPurged t retention_start entry p h =
    elim (Option-cases (purge_refusal p.tables entry retention_start)) [
      | inr (code, e) ↦ rw (e, purge_one) (refused-IsPurged t entry.entry_id code p h)
      | inl e ↦ rw (e, purge_one) (purged-IsPurged t entry.entry_id p h)
    ]

purge_all-IsPurged :
    (t : Tables) (retention_start : ℕ) (entries : List PurgeEntry) (p : Purge)
    → IsPurged t p
    → IsPurged t (purge_all retention_start entries p)
unfolding purge_all
purge_all-IsPurged t retention_start [] p h = h
purge_all-IsPurged t retention_start (entry ∷ entries) p h =
    purge_all-IsPurged t retention_start entries (purge_one retention_start entry p)
      (purge_one-IsPurged t retention_start entry p h)

delete_none {ℓ} : {A : Type ℓ} (xs : List A) → delete_where (λ x. false) xs ≡ xs
unfolding delete_where
delete_none [] = refl
delete_none (x ∷ xs) = ap (λ ys. x ∷ ys) (delete_none xs)

All-kept : (vs : List EntryVersion) → All (λ v. true ≡ true) vs
All-kept [] = tt
All-kept (v ∷ vs) = (refl, All-kept vs)

-- A purge removes exactly the versions of the entries that it accepts, and hands the blob of every
-- version that it removes to the collector; entries stay as they are.
pub purge_deleted_entry_versions-IsPurged :
    (entries : List PurgeEntry) (retention_start : ℕ) (t : Tables)
    → IsPurged t (purge_deleted_entry_versions entries retention_start t)
unfolding purge_deleted_entry_versions was_purged
purge_deleted_entry_versions-IsPurged entries retention_start t =
    purge_all-IsPurged t retention_start entries _ (record {
      entries = refl;
      versions = sym (delete_none t.entry_versions);
      candidates = All-kept t.entry_versions;
    })
