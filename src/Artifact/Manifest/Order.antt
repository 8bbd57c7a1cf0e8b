-- ===== src/Artifact/Manifest/Order.antt =====
-- packages/protocol/src/artifact-policy.ts: the order of a manifest and of its normal form.
use mathlib.Core.List.Permᴰ
use mathlib.Core.List.{Permᴰ}
use loop_platform_zhb.Base.{
  ◌≡◌, refl, sym, subst, ap, ◌∙◌, ◌≢◌, inl, inr, JsString, true, false, List, [], ◌∷◌, arith,
  length, map, Bool-cases, All, str_eq_iff,
}
use loop_platform_zhb.Terminal.{str_lt}
use loop_platform_zhb.Terminal.Capabilities.{
  str_lt_irrefl, str_lt_trans, str_lt_total, Ascending, All-trans,
}
use loop_platform_zhb.Artifact.Manifest.{
  ArtifactManifestEntry, ManifestValidation, insert_entry, sort_entries, normalize_manifest_entries,
}
use loop_platform_zhb.Artifact.Manifest.Compatible.{
  byte_count, Compatible, Compatible-sym, Pairwise,
}
use loop_platform_zhb.Artifact.Manifest.Accepted.{
  IsManifest, total_size, normalize_manifest_entries_iff,
}

abbrev Entries : Type 0
Entries = List ArtifactManifestEntry

lt_other : (s t : JsString) → s ≢ t → str_lt s t ≡ false → str_lt t s ≡ true
lt_other s t ne h = str_lt_total s t h (ground (arith, str_eq_iff s t, ne))

insert_entry_comm :
    (a b : ArtifactManifestEntry) (l : Entries)
    → a.path ≢ b.path
    → insert_entry a (insert_entry b l) ≡ insert_entry b (insert_entry a l)
unfolding insert_entry
insert_entry_comm a b [] ne =
    ground
      (arith, lt_other a.path b.path ne, str_lt_trans a.path b.path a.path, str_lt_irrefl a.path)
insert_entry_comm a b (y ∷ l) ne = ground (
  arith,
  insert_entry_comm a b l ne,
  lt_other a.path b.path ne,
  str_lt_trans a.path b.path a.path,
  str_lt_irrefl a.path,
  str_lt_trans y.path a.path b.path,
  str_lt_trans y.path b.path a.path,
  str_lt_trans a.path b.path y.path,
  str_lt_trans b.path a.path y.path,
)

perm-All :
    (P : ArtifactManifestEntry → Type 0) {es fs : Entries} → Permᴰ es fs → All P es → All P fs
perm-All P Permᴰ.nil h = tt
perm-All P (Permᴰ.cons e d) (h, hs) = (subst P e h, perm-All P d hs)
perm-All P (Permᴰ.swap e e') (h, (k, hs)) = (subst P e' k, (subst P e h, hs))
perm-All P (Permᴰ.trans d d') h = perm-All P d' (perm-All P d h)

perm_pairs : {es fs : Entries} → Permᴰ es fs → Pairwise es → Pairwise fs
perm_pairs Permᴰ.nil h = tt
perm_pairs (Permᴰ.cons {l₂ = m} e d) (h, hs) =
    (subst (λ x. All (λ y. Compatible x y) m) e (perm-All _ d h), perm_pairs d hs)
perm_pairs (Permᴰ.swap {a} {b} {a'} {b'} {l} e e') ((c, h), (k, hs)) = (
  (
    subst (λ x. Compatible x b') e' (subst (λ x. Compatible b x) e (Compatible-sym a b c)),
    subst (λ x. All (λ y. Compatible x y) l) e' k,
  ),
  (subst (λ x. All (λ y. Compatible x y) l) e h, hs),
)
perm_pairs (Permᴰ.trans d d') h = perm_pairs d' (perm_pairs d h)

perm_length : {es fs : Entries} → Permᴰ es fs → length es ≡ length fs
perm_length Permᴰ.nil = refl
perm_length (Permᴰ.cons e d) = omega (arith, perm_length d)
perm_length (Permᴰ.swap e e') = refl
perm_length (Permᴰ.trans d d') = perm_length d ∙ perm_length d'

count_eq : {a b : ArtifactManifestEntry} → a ≡ b → byte_count a.size ≡ byte_count b.size
count_eq e = ap (λ x. byte_count x.size) e

perm_total : {es fs : Entries} → Permᴰ es fs → total_size es ≡ total_size fs
perm_total Permᴰ.nil = refl
perm_total (Permᴰ.cons e d) = omega (arith, perm_total d, count_eq e)
perm_total (Permᴰ.swap e e') = omega (arith, count_eq e, count_eq e')
perm_total (Permᴰ.trans d d') = perm_total d ∙ perm_total d'

perm_sort : {es fs : Entries} → Permᴰ es fs → Pairwise es → sort_entries es ≡ sort_entries fs
unfolding sort_entries
perm_sort Permᴰ.nil h = refl
perm_sort (Permᴰ.cons e d) (h, hs) = cc (e, perm_sort d hs)
perm_sort (Permᴰ.swap {a} {b} {a'} {b'} {l} e e') ((c, h), k) =
    let comm = insert_entry_comm a b (sort_entries l) c.apart in cc (e, e', comm)
perm_sort (Permᴰ.trans d d') h = perm_sort d h ∙ perm_sort d' (perm_pairs d h)

perm-IsManifest : {es fs : Entries} → Permᴰ es fs → IsManifest es → IsManifest fs
perm-IsManifest d v = record {
  legal = perm-All _ d v.legal;
  pairs = perm_pairs d v.pairs;
  count = omega (arith, perm_length d, v.count);
  bytes = omega (arith, perm_total d, v.bytes);
}

-- A manifest that is accepted is accepted in every order of its entries, with the same result.
pub normalize_manifest_entries-shuffled :
    (es fs r : List ArtifactManifestEntry)
    → Permᴰ es fs
    → normalize_manifest_entries es ≡ ManifestValidation.ok r
    → normalize_manifest_entries fs ≡ ManifestValidation.ok r
normalize_manifest_entries-shuffled es fs r d h =
    let (same, v) = (normalize_manifest_entries_iff es r).0 h in
    (normalize_manifest_entries_iff fs r).1 (same ∙ perm_sort d v.pairs, perm-IsManifest d v)

abbrev pub path_of : ArtifactManifestEntry → JsString
path_of e = e.path

insert_entry_above :
    (w : JsString) (x : ArtifactManifestEntry) (l : Entries)
    → str_lt w x.path ≡ true
    → All (λ z. str_lt w z ≡ true) (map path_of l)
    → All (λ z. str_lt w z ≡ true) (map path_of (insert_entry x l))
unfolding insert_entry
insert_entry_above w x [] h a = (h, tt)
insert_entry_above w x (y ∷ l) h a = ground (arith, insert_entry_above w x l h a.1)

insert_entry-Ascending :
    (x : ArtifactManifestEntry) (l : Entries)
    → All (λ d. Compatible x d) l
    → Ascending (map path_of l)
    → Ascending (map path_of (insert_entry x l))
unfolding insert_entry
insert_entry-Ascending x [] ne a = (tt, tt)
insert_entry-Ascending x (y ∷ l) (ne, nes) (above, a) = elim (Bool-cases (str_lt y.path x.path)) [
  | inl less ↦ rw less (insert_entry_above y.path x l less above, insert_entry-Ascending x l nes a)
  | inr not_less ↦
      let before = lt_other y.path x.path (λ e. ne.apart (sym e)) not_less in
      rw not_less ((before, All-trans x.path y.path (map path_of l) before above), (above, a))
]

insert_entry_perm : (x : ArtifactManifestEntry) (l : Entries) → Permᴰ (x ∷ l) (insert_entry x l)
unfolding insert_entry
insert_entry_perm x [] = Permᴰ.refl (x ∷ [])
insert_entry_perm x (y ∷ l) = elim (Bool-cases (str_lt y.path x.path)) [
  | inl less ↦
      rw less (Permᴰ.trans (Permᴰ.swap refl refl) (Permᴰ.cons refl (insert_entry_perm x l)))
  | inr not_less ↦ rw not_less (Permᴰ.refl (x ∷ y ∷ l))
]

sort_perm : (es : Entries) → Permᴰ es (sort_entries es)
unfolding sort_entries
sort_perm [] = Permᴰ.nil
sort_perm (x ∷ es) =
    Permᴰ.trans (Permᴰ.cons refl (sort_perm es)) (insert_entry_perm x (sort_entries es))

sort-Ascending : (es : Entries) → Pairwise es → Ascending (map path_of (sort_entries es))
unfolding sort_entries
sort-Ascending [] h = tt
sort-Ascending (x ∷ es) (h, hs) =
    insert_entry-Ascending x (sort_entries es) (perm-All _ (sort_perm es) h) (sort-Ascending es hs)

-- An accepted manifest comes back strictly ascending by path, with the entries of the wire, and is
-- its own normal form.
pub normalize_manifest_entries-Sorted :
    (es r : List ArtifactManifestEntry)
    → normalize_manifest_entries es ≡ ManifestValidation.ok r
    → Ascending (map path_of r)
      × Permᴰ es r
      × (normalize_manifest_entries r ≡ ManifestValidation.ok r)
normalize_manifest_entries-Sorted es r h =
    let (same, v) = (normalize_manifest_entries_iff es r).0 h in
    let perm = subst (λ z. Permᴰ es z) (sym same) (sort_perm es) in
    (
      subst (λ z. Ascending (map path_of z)) (sym same) (sort-Ascending es v.pairs),
      perm,
      normalize_manifest_entries-shuffled es r r perm h,
    )
