-- ===== src/Artifact/Manifest/Compatible.antt =====
-- packages/protocol/src/artifact-policy.ts: the checks of one manifest entry against those before it.
use loop_platform_zhb.Base.{
  ℕ, ◌≤◌, ◌≡◌, refl, sym, ap, ◌∙◌, ◌≢◌, ◌↔◌, inl, inr, JsString, true, false, ◌||◌, List, [], ◌∷◌,
  ◌++◌, any, arith, Bool-cases, All, str_eq, str_eq_iff,
}
use loop_platform_zhb.Terminal.{contains}
use loop_platform_zhb.Artifact.{split, is_never_sync_path}
use loop_platform_zhb.Artifact.Path.{IsSegment, IsRelativePath, validate_artifact_path_iff}
use loop_platform_zhb.Artifact.Prefixes.{Below, NonEmpty, dir_prefixes_iff}
use loop_platform_zhb.Artifact.Manifest.{
  JsNumber, ArtifactManifestEntry, ManifestScan, is_artifact_hash, dir_prefixes, seen_size,
  size_differs, check_legal, record_entry, empty_scan, artifact_file_max_bytes, check_size,
}

-- An entry that is legal by itself.
pub record IsLegal (e : ArtifactManifestEntry) : Type 0 where
  pub path : IsRelativePath e.path
  pub synced : is_never_sync_path e.path ≡ false
  pub hash : is_artifact_hash e.hash ≡ true
  pub bytes : ℕ
  pub size : e.size ≡ JsNumber.whole bytes
  pub fits : bytes ≤ artifact_file_max_bytes

abbrev pub byte_count : JsNumber → ℕ
byte_count (JsNumber.whole n) = n
byte_count (JsNumber.negative n) = 0
byte_count (JsNumber.other bits) = 0

IsSize : JsNumber → ℕ → Type 0
IsSize size n = (size ≡ JsNumber.whole n) × (n ≤ artifact_file_max_bytes)

check_size_iff : (size : JsNumber) (n : ℕ) → (check_size size ≡ inr n) ↔ IsSize size n
unfolding check_size IsSize
check_size_iff (JsNumber.whole k) n = ground arith
check_size_iff (JsNumber.negative k) n = ground arith
check_size_iff (JsNumber.other k) n = ground arith

check_legal_sound :
    (e : ArtifactManifestEntry) (n : ℕ)
    → check_legal e ≡ inr n
    → IsLegal e × (n ≡ byte_count e.size)
unfolding check_legal IsSize
check_legal_sound e n h =
    let (size, fits) = (check_size_iff e.size n).0 (ground arith) in
    (
      record {
        path = (validate_artifact_path_iff e.path).0 (ground arith);
        synced = ground arith;
        hash = ground arith;
        bytes = n;
        size = size;
        fits = fits;
      },
      sym (ap byte_count size),
    )

check_legal_complete :
    (e : ArtifactManifestEntry) → IsLegal e → check_legal e ≡ inr (byte_count e.size)
unfolding check_legal IsSize
check_legal_complete e v =
    let size = (check_size_iff e.size v.bytes).1 (v.size, v.fits) in
    let count : byte_count e.size ≡ v.bytes = ap byte_count v.size in
    rw (count)
      (ground (arith, (validate_artifact_path_iff e.path).1 v.path, v.synced, v.hash, size))

pub check_legal_iff :
    (e : ArtifactManifestEntry) (n : ℕ)
    → (check_legal e ≡ inr n) ↔ (IsLegal e × (n ≡ byte_count e.size))
check_legal_iff e n =
    (check_legal_sound e n, λ (v, same). check_legal_complete e v ∙ ap inr (sym same))

-- Two entries that may stand in one manifest: two files, neither at a directory of the other, and
-- of one size where they have one hash.
pub record Compatible (a b : ArtifactManifestEntry) : Type 0 where
  pub apart : a.path ≢ b.path
  pub not_above : ¬ Below a.path b.path
  pub not_below : ¬ Below b.path a.path
  pub same_size : a.hash ≡ b.hash → a.size ≡ b.size

pub Compatible-sym : (a b : ArtifactManifestEntry) → Compatible a b → Compatible b a
Compatible-sym a b c = record {
  apart = λ e. c.apart (sym e);
  not_above = c.not_below;
  not_below = c.not_above;
  same_size = λ e. sym (c.same_size (sym e));
}

abbrev pub Pairwise : List ArtifactManifestEntry → Type 0
Pairwise [] = Unit
Pairwise (e ∷ es) = All (λ d. Compatible e d) es × Pairwise es

-- The scan's state after some entries, the latest first.
abbrev pub scanned : List ArtifactManifestEntry → ManifestScan
scanned [] = empty_scan
scanned (e ∷ done) = record_entry (scanned done) e (byte_count e.size)

contains-append :
    (l m : List JsString) (z : JsString) → contains (l ++ m) z ≡ (contains l z || contains m z)
unfolding contains
contains-append [] m z = refl
contains-append (x ∷ l) m z = ground (arith, contains-append l m z)

not-Below_iff :
    (d p : JsString)
    → NonEmpty (split b'/' p)
    → (contains (dir_prefixes p) d ≡ false) ↔ (¬ Below d p)
not-Below_iff d p ne = ground (arith, dir_prefixes_iff d p ne)

pub seen_paths_iff :
    (done : List ArtifactManifestEntry) (p : JsString)
    → (contains (scanned done).seen_paths p ≡ false) ↔ All (λ d. d.path ≢ p) done
unfolding contains record_entry
seen_paths_iff [] p = ground arith
seen_paths_iff (e ∷ done) p = ground (arith, str_eq_iff e.path p, seen_paths_iff done p)

pub segments_NonEmpty : (p : JsString) → IsRelativePath p → NonEmpty (split b'/' p)
segments_NonEmpty p v = go (split b'/' p) v.segments
  where
    go : (l : List JsString) → All IsSegment l → NonEmpty l
    go [] h = tt
    go (s ∷ l) h = (h.0.0, go l h.1)

pub seen_dirs_iff :
    (done : List ArtifactManifestEntry) (p : JsString)
    → All IsLegal done
    → (contains (scanned done).seen_dir_prefixes p ≡ false) ↔ All (λ d. ¬ Below p d.path) done
unfolding contains record_entry
seen_dirs_iff [] p legal = ground arith
seen_dirs_iff (e ∷ done) p (v, legal) = ground (
  arith,
  contains-append (dir_prefixes e.path) (scanned done).seen_dir_prefixes p,
  not-Below_iff p e.path (segments_NonEmpty e.path v.path),
  seen_dirs_iff done p legal,
)

any-contains :
    (x : JsString) (seen l : List JsString)
    → any (contains (x ∷ seen)) l ≡ (contains l x || any (contains seen) l)
unfolding contains
any-contains x seen [] = refl
any-contains x seen (y ∷ l) = ground (arith, any-contains x seen l, str_eq_iff x y, str_eq_iff y x)

any-contains_nil : (l : List JsString) → any (contains []) l ≡ false
unfolding contains
any-contains_nil [] = refl
any-contains_nil (y ∷ l) = any-contains_nil l

pub seen_above_iff :
    (done : List ArtifactManifestEntry) (p : JsString)
    → NonEmpty (split b'/' p)
    → (any (contains (scanned done).seen_paths) (dir_prefixes p) ≡ false)
      ↔ All (λ d. ¬ Below d.path p) done
unfolding record_entry
seen_above_iff [] p ne = ground (arith, any-contains_nil (dir_prefixes p))
seen_above_iff (e ∷ done) p ne = ground (
  arith,
  any-contains e.path (scanned done).seen_paths (dir_prefixes p),
  not-Below_iff e.path p ne,
  seen_above_iff done p ne,
)

agree :
    (h : JsString) (size : JsNumber) (d : ArtifactManifestEntry) (ds : List ArtifactManifestEntry)
    → All (λ x. Compatible d x) ds
    → d.hash ≡ h
    → d.size ≡ size
    → All (λ x. x.hash ≡ h → x.size ≡ size) ds
agree h size d [] c e k = tt
agree h size d (x ∷ ds) (c, cs) e k =
    (λ f. sym (c.same_size (e ∙ sym f)) ∙ k, agree h size d ds cs e k)

pub seen_size_iff :
    (done : List ArtifactManifestEntry) (h : JsString) (n : ℕ)
    → All IsLegal done
    → Pairwise done
    → (size_differs (seen_size h (scanned done).seen_hashes) n ≡ false)
      ↔ All (λ d. d.hash ≡ h → d.size ≡ JsNumber.whole n) done
unfolding seen_size size_differs record_entry
seen_size_iff [] h n legal pairs = ground arith
seen_size_iff (d ∷ done) h n (v, legal) (c, pairs) =
    let count : byte_count d.size ≡ v.bytes = ap byte_count v.size in
    elim (Bool-cases (str_eq d.hash h)) [
      | inl same ↦
          let e = (str_eq_iff d.hash h).0 same in
          rw (same, count)
            (
              λ k.
                  let at : d.size ≡ JsNumber.whole n = v.size ∙ ap JsNumber.whole (ground arith) in
                  (λ f. at, agree h (JsNumber.whole n) d done c e at),
              λ a.
                  let at : JsNumber.whole v.bytes ≡ JsNumber.whole n = sym v.size ∙ a.0 e in
                  let b : v.bytes ≡ n = cc at in ground (arith, b),
            )
      | inr other ↦
          let ih = seen_size_iff done h n legal pairs in
          let ne : d.hash ≢ h = λ e. ground (arith, (str_eq_iff d.hash h).1 e) in
          rw other (λ k. (λ f. ground (arith, ne f), ih.0 k), λ a. ih.1 a.1)
    ]
