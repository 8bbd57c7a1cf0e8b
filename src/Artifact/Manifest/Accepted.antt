-- ===== src/Artifact/Manifest/Accepted.antt =====
-- packages/protocol/src/artifact-policy.ts: the one pass over a manifest.
use loop_platform_zhb.Base.{
  ℕ, suc, ◌+◌, ◌≤◌, ◌≡◌, refl, sym, ap, ◌∙◌, ◌≢◌, ◌↔◌, inl, inr, none, List, [], ◌∷◌, arith, length,
  Option-cases, Sum-cases, All,
}
use loop_platform_zhb.Artifact.Prefixes.{Below}
use loop_platform_zhb.Artifact.Manifest.{
  JsNumber, ArtifactManifestEntry, ManifestScan, ManifestValidation, check_legal, check_seen,
  record_entry, scan_entries, empty_scan, sort_entries, normalize_manifest_entries,
  artifact_manifest_max_entries, artifact_manifest_max_total_bytes,
}
use loop_platform_zhb.Artifact.Manifest.Compatible.{
  IsLegal, byte_count, check_legal_iff, Compatible, Compatible-sym, Pairwise, scanned,
  segments_NonEmpty, seen_paths_iff, seen_above_iff, seen_dirs_iff, seen_size_iff,
}

All-Compatible :
    (e : ArtifactManifestEntry) (done : List ArtifactManifestEntry)
    → All (λ d. d.path ≢ e.path) done
    → All (λ d. ¬ Below d.path e.path) done
    → All (λ d. ¬ Below e.path d.path) done
    → All (λ d. d.hash ≡ e.hash → d.size ≡ e.size) done
    → All (λ d. Compatible d e) done
All-Compatible e [] a b c s = tt
All-Compatible e (d ∷ done) (p, ps) (b, bs) (c, cs) (s, ss) = (
  record { apart = p; not_above = b; not_below = c; same_size = s },
  All-Compatible e done ps bs cs ss,
)

All-map :
    {P Q : ArtifactManifestEntry → Type 0}
    → ((d : ArtifactManifestEntry) → P d → Q d)
    → (l : List ArtifactManifestEntry) → All P l
    → All Q l
All-map f [] h = tt
All-map f (d ∷ l) (h, hs) = (f d h, All-map f l hs)

check_seen_iff :
    (done : List ArtifactManifestEntry) (e : ArtifactManifestEntry) (n : ℕ)
    → All IsLegal done
    → Pairwise done
    → IsLegal e
    → e.size ≡ JsNumber.whole n
    → (check_seen (scanned done) e n ≡ none) ↔ All (λ d. Compatible d e) done
unfolding check_seen
check_seen_iff done e n legal pairs v size =
    let ne = segments_NonEmpty e.path v.path in
    let sizes = seen_size_iff done e.hash n legal pairs in
    let resize : (d : ArtifactManifestEntry)
        → (d.hash ≡ e.hash → d.size ≡ JsNumber.whole n)
        → d.hash ≡ e.hash
        → d.size ≡ e.size =
      λ d. λ h. λ k. h k ∙ sym size in
    (
      λ h.
          All-Compatible e done ((seen_paths_iff done e.path).0 (ground arith))
            ((seen_above_iff done e.path ne).0 (ground arith))
            ((seen_dirs_iff done e.path legal).0 (ground arith))
            (All-map resize done (sizes.0 (ground arith))),
      λ c. ground (
        arith,
        (seen_paths_iff done e.path).1 (All-map (λ d. λ k. k.apart) done c),
        (seen_above_iff done e.path ne).1 (All-map (λ d. λ k. k.not_above) done c),
        (seen_dirs_iff done e.path legal).1 (All-map (λ d. λ k. k.not_below) done c),
        sizes.1 (All-map (λ d. λ k. λ same. k.same_size same ∙ size) done c),
      ),
    )

-- Each entry is legal and compatible with those before it.
Clear : List ArtifactManifestEntry → List ArtifactManifestEntry → Type 0
Clear done [] = Unit
Clear done (e ∷ es) = IsLegal e × All (λ d. Compatible d e) done × Clear (e ∷ done) es

abbrev pub total_size : List ArtifactManifestEntry → ℕ
total_size [] = 0
total_size (e ∷ es) = byte_count e.size + total_size es

extend :
    (e : ArtifactManifestEntry) (done : List ArtifactManifestEntry)
    → All (λ d. Compatible d e) done
    → All (λ d. Compatible e d) done
extend e done c = All-map (λ d. Compatible-sym d e) done c

whole_size : (e : ArtifactManifestEntry) → IsLegal e → e.size ≡ JsNumber.whole (byte_count e.size)
whole_size e v = v.size ∙ ap JsNumber.whole (sym (ap byte_count v.size))

scan_sound :
    (i : ℕ) (done es : List ArtifactManifestEntry) (s : ManifestScan)
    → All IsLegal done
    → Pairwise done
    → scan_entries (scanned done) i es ≡ inr s
    → Clear done es × (s.total_bytes ≡ (scanned done).total_bytes + total_size es)
unfolding scan_entries Clear record_entry
scan_sound i done [] s legal pairs h = (tt, ground arith)
scan_sound i done (e ∷ es) s legal pairs h = elim (Sum-cases (check_legal e)) [
  | inl (f, bad) ↦ let r = rw (bad, scan_entries) at h in cc
  | inr (n, good) ↦ elim (Option-cases (check_seen (scanned done) e n)) [
    | inr (f, bad) ↦ let r = rw (good, bad, scan_entries) at h in cc
    | inl free ↦
        let (v, count) = (check_legal_iff e n).0 good in
        let k =
          (check_seen_iff done e n legal pairs v (whole_size e v ∙ ap JsNumber.whole (sym count))).0
            free in
        let r = rw (good, free, count, scan_entries) at h in
        let (c, sum) = scan_sound (suc i) (e ∷ done) es s (v, legal) (extend e done k, pairs) r in
        ((v, k, c), ground (arith, sum))
  ]
]

scan_complete :
    (i : ℕ) (done es : List ArtifactManifestEntry)
    → All IsLegal done
    → Pairwise done
    → Clear done es
    → (s : ManifestScan) × (scan_entries (scanned done) i es ≡ inr s)
unfolding scan_entries Clear
scan_complete i done [] legal pairs c = (scanned done, refl)
scan_complete i done (e ∷ es) legal pairs (v, k, c) =
    let at = (check_legal_iff e (byte_count e.size)).1 (v, refl) in
    let free = (check_seen_iff done e (byte_count e.size) legal pairs v (whole_size e v)).1 k in
    let rest = scan_complete (suc i) (e ∷ done) es (v, legal) (extend e done k, pairs) c in
    rw (at, free, scan_entries) rest

AllClear : List ArtifactManifestEntry → List ArtifactManifestEntry → Type 0
AllClear done es = All (λ e. All (λ d. Compatible d e) done) es

AllClear-add :
    (d : ArtifactManifestEntry) (done es : List ArtifactManifestEntry)
    → AllClear (d ∷ done) es ↔ (All (λ e. Compatible d e) es × AllClear done es)
unfolding AllClear
AllClear-add d done [] = ground arith
AllClear-add d done (e ∷ es) = ground (arith, AllClear-add d done es)

AllClear-nil : (es : List ArtifactManifestEntry) → AllClear [] es
unfolding AllClear
AllClear-nil [] = tt
AllClear-nil (e ∷ es) = (tt, AllClear-nil es)

Clear-iff :
    (done es : List ArtifactManifestEntry)
    → Clear done es ↔ (All IsLegal es × AllClear done es × Pairwise es)
unfolding Clear AllClear
Clear-iff done [] = ground arith
Clear-iff done (e ∷ es) = (
  λ (v, k, c).
      let (legal, clear, pairs) = (Clear-iff (e ∷ done) es).0 c in
      let (mine, others) = (AllClear-add e done es).0 clear in
      ((v, legal), (k, others), (mine, pairs)),
  λ ((v, legal), (k, others), (mine, pairs)).
      (v, k, (Clear-iff (e ∷ done) es).1 (legal, (AllClear-add e done es).1 (mine, others), pairs)),
)

-- A manifest that may be synced.
pub record IsManifest (es : List ArtifactManifestEntry) : Type 0 where
  pub legal : All IsLegal es
  pub pairs : Pairwise es
  pub count : length es ≤ artifact_manifest_max_entries
  pub bytes : total_size es ≤ artifact_manifest_max_total_bytes

normalize_sound :
    (es r : List ArtifactManifestEntry)
    → normalize_manifest_entries es ≡ ManifestValidation.ok r
    → (r ≡ sort_entries es) × IsManifest es
unfolding normalize_manifest_entries
normalize_sound es r h = elim (Sum-cases (scan_entries empty_scan 0 es)) [
  | inl (f, bad) ↦ let k = rw (bad, normalize_manifest_entries) at h in cc
  | inr (s, good) ↦
      let k = rw (good, normalize_manifest_entries) at h in
      let (c, sum) = scan_sound 0 [] es s tt tt good in
      let (legal, clear, pairs) = (Clear-iff [] es).0 c in
      (
        ground arith,
        record { legal = legal; pairs = pairs; count = ground arith; bytes = ground (arith, sum) },
      )
]

normalize_complete :
    (es : List ArtifactManifestEntry)
    → IsManifest es
    → normalize_manifest_entries es ≡ ManifestValidation.ok (sort_entries es)
unfolding normalize_manifest_entries
normalize_complete es v =
    let (s, good) =
      scan_complete 0 [] es tt tt ((Clear-iff [] es).1 (v.legal, AllClear-nil es, v.pairs)) in
    let sum = (scan_sound 0 [] es s tt tt good).1 in
    rw (good, normalize_manifest_entries) (ground (arith, sum, v.count, v.bytes))

-- A manifest is accepted exactly when every entry is legal by itself, each two entries are
-- compatible (two paths, neither below the other, one size for one hash), and their number and
-- total size are within the limits; the result is the entries sorted.
pub normalize_manifest_entries_iff :
    (es r : List ArtifactManifestEntry)
    → (normalize_manifest_entries es ≡ ManifestValidation.ok r)
      ↔ ((r ≡ sort_entries es) × IsManifest es)
normalize_manifest_entries_iff es r = (
  normalize_sound es r,
  λ (same, v). normalize_complete es v ∙ ap ManifestValidation.ok (sym same),
)
