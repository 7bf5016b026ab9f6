-- ===== src/Coordinator/BlobSync/Held.antt =====
-- No object is lost that an entry or a kept version names, when each request runs on its own.
use syncali.Prelude.{
  ℕ, zero, suc, ◌≡◌, ◌∙◌, refl, String, Bool, true, false, ◌&&◌, ◌||◌, Option, none, some, List, [],
  ◌∷◌, map, arith, leb, take, same, refers, has, truthy, truthy-some, All, delete_where, Bool-cases,
  Option-cases, inl, inr, select_first,
}
use syncali.Coordinator.Tables.{Tables, Blob, Entry, EntryVersion}
use syncali.Coordinator.BlobStore.{
  in_entries, in_versions, is_collectible, delete_blob_if_collectible, drop_blob,
}
use syncali.Coordinator.BlobSync.{BlobSync, tables_of, remove_object, remove_objects, collect_all}

unfoldable pub is_held : List String → Option String → Bool
unfolding has
is_held objects o = elim (truthy o) [ none ↦ true | some id ↦ has objects id ]

abbrev pub HeldEntries : List String → List Entry → Type 0
HeldEntries objects es = All (λ e. is_held objects e.blob_id ≡ true) es

abbrev pub HeldVersions : ℕ → List String → List EntryVersion → Type 0
HeldVersions now objects vs =
    All (λ v. (leb v.expires_at now || is_held objects v.blob_id) ≡ true) vs

-- Every blob that an entry names, or a version that has not expired, has its object.
pub record IsHeld (now : ℕ) (s : BlobSync) : Type 0 where
  pub entries : HeldEntries s.objects (tables_of s).entries
  pub versions : HeldVersions now s.objects (tables_of s).entry_versions

has-remove_object :
    (id j : String) (objects : List String)
    → same j id ≡ false
    → has (remove_object id objects) j ≡ has objects j
unfolding remove_object has delete_where
has-remove_object id j [] h = refl
has-remove_object id j (o ∷ objects) h = ground (arith, has-remove_object id j objects h)

is_held-remove :
    (id : String) (objects : List String) (o : Option String)
    → refers id o ≡ false
    → is_held objects o ≡ true
    → is_held (remove_object id objects) o ≡ true
unfolding is_held
is_held-remove id objects o h k = elim (Option-cases (truthy o)) [
  | inl e ↦ rw (e, is_held) refl
  | inr (j, e) ↦
      rw (e, is_held)
        (has-remove_object id j objects (rw (truthy-some o j e) at h) ∙ (rw (e, is_held) at k))
]

pub HeldEntries-remove :
    (id : String) (objects : List String) (es : List Entry)
    → in_entries id es ≡ false
    → HeldEntries objects es
    → HeldEntries (remove_object id objects) es
unfolding in_entries
HeldEntries-remove id objects [] f k = tt
HeldEntries-remove id objects (e ∷ es) f k = (
  is_held-remove id objects e.blob_id (ground arith) k.0,
  HeldEntries-remove id objects es (ground arith) k.1,
)

pub HeldVersions-remove :
    (id : String) (now : ℕ) (objects : List String) (vs : List EntryVersion)
    → in_versions id now vs ≡ false
    → HeldVersions now objects vs
    → HeldVersions now (remove_object id objects) vs
unfolding in_versions
HeldVersions-remove id now objects [] f k = tt
HeldVersions-remove id now objects (v ∷ vs) f k = (
  elim (Bool-cases (leb v.expires_at now)) [
    | inl e ↦ rw e refl
    | inr e ↦ rw e (is_held-remove id objects v.blob_id (ground arith) (ground arith))
  ],
  HeldVersions-remove id now objects vs (ground arith) k.1,
)

-- The blobs of a batch are free of references.
abbrev pub Free : ℕ → List Entry → List EntryVersion → List Blob → Type 0
Free now es vs bs =
    All (λ b. (in_entries b.blob_id es ≡ false) × (in_versions b.blob_id now vs ≡ false)) bs

pub HeldEntries-remove_all :
    (now : ℕ) (objects : List String) (es : List Entry) (vs : List EntryVersion) (bs : List Blob)
    → Free now es vs bs
    → HeldEntries objects es
    → HeldEntries (remove_objects (map (λ b. b.blob_id) bs) objects) es
unfolding remove_objects
HeldEntries-remove_all now objects es vs [] f k = k
HeldEntries-remove_all now objects es vs (b ∷ bs) f k =
    HeldEntries-remove_all now (remove_object b.blob_id objects) es vs bs f.1
      (HeldEntries-remove b.blob_id objects es f.0.0 k)

pub HeldVersions-remove_all :
    (now : ℕ) (objects : List String) (es : List Entry) (vs : List EntryVersion) (bs : List Blob)
    → Free now es vs bs
    → HeldVersions now objects vs
    → HeldVersions now (remove_objects (map (λ b. b.blob_id) bs) objects) vs
unfolding remove_objects
HeldVersions-remove_all now objects es vs [] f k = k
HeldVersions-remove_all now objects es vs (b ∷ bs) f k =
    HeldVersions-remove_all now (remove_object b.blob_id objects) es vs bs f.1
      (HeldVersions-remove b.blob_id now objects vs f.0.1 k)

pub collect_one-entries :
    (t : Tables) (id : String) (now : ℕ)
    → ((delete_blob_if_collectible t id now).entries ≡ t.entries)
      × ((delete_blob_if_collectible t id now).entry_versions ≡ t.entry_versions)
unfolding delete_blob_if_collectible drop_blob
collect_one-entries t id now =
    elim (Option-cases (select_first (λ b. same b.blob_id id && is_collectible t now b) t.blobs)) [
      | inl e ↦ rw (e, delete_blob_if_collectible) (refl, refl)
      | inr (b, e) ↦ rw (e, delete_blob_if_collectible) (refl, refl)
    ]

-- A collection drops rows of the table of blobs only.
pub collect_all-entries :
    (bs : List Blob) (now : ℕ) (t : Tables)
    → ((collect_all bs now t).entries ≡ t.entries)
      × ((collect_all bs now t).entry_versions ≡ t.entry_versions)
unfolding collect_all
collect_all-entries [] now t = (refl, refl)
collect_all-entries (b ∷ bs) now t =
    let rest = collect_all-entries bs now (delete_blob_if_collectible t b.blob_id now) in
    let one = collect_one-entries t b.blob_id now in (rest.0 ∙ one.0, rest.1 ∙ one.1)

pub All-delete_where {ℓ κ} :
    {A : Type ℓ} (P : A → Type κ) (p : A → Bool) (xs : List A)
    → All P xs
    → All P (delete_where p xs)
unfolding delete_where
All-delete_where P p [] h = tt
All-delete_where P p (x ∷ xs) h = elim (Bool-cases (p x)) [
  | inl e ↦ rw e (All-delete_where P p xs h.1)
  | inr e ↦ rw e (h.0, All-delete_where P p xs h.1)
]

pub All-take {ℓ κ} :
    {A : Type ℓ} (P : A → Type κ) (n : ℕ) (xs : List A) → All P xs → All P (take n xs)
All-take P zero xs h = tt
All-take P (suc n) [] h = tt
All-take P (suc n) (x ∷ xs) h = (h.0, All-take P n xs h.1)

pub collectible_free :
    (t : Tables) (now : ℕ) (b : Blob)
    → is_collectible t now b ≡ true
    → (in_entries b.blob_id t.entries ≡ false)
      × (in_versions b.blob_id now t.entry_versions ≡ false)
unfolding is_collectible
collectible_free t now b h = (ground arith, ground arith)
