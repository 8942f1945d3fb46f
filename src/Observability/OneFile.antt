-- ===== src/Observability/OneFile.antt =====
-- pyleaner/observability.py: a relative path of `_local_import_closure` names one file.
use py_leaner.Base.{
  ◌≡◌, refl, sym, ap, ◌∙◌, ◌⊎◌, inl, inr, some, List, [], ◌∷◌, ◌++◌, false, Bool-cases,
  Option-cases,
}
use mathlib.Core.List.{append-nil, append_assoc}
use py_leaner.Base.Text.{Text, codes, text_eq, text_eq_iff}
use py_leaner.Observability.Lines.{split_at}
use py_leaner.Observability.Closure.{
  Content, text, broken, Entry, absent, directory, file, Disk, path_text, join, with_suffix, under,
  as_posix, relative_to, found, read_source, first_file, local_source,
}

path_text-as_posix : (p : Text) (ps : List Text) → path_text (p ∷ ps) ≡ b'/' ∷ as_posix (p ∷ ps)
unfolding as_posix
path_text-as_posix p [] = ap (λ s. b'/' ∷ s) (append-nil p)
path_text-as_posix p (q ∷ qs) = ap (λ s. b'/' ∷ p ++ s) (path_text-as_posix q qs)

-- The path is the root, or its text is the root's and what is relative.
relative_to-path_text :
    (root path : List Text) (r : Text)
    → relative_to root path ≡ some r
    → (path ≡ root) ⊎ (path_text path ≡ path_text root ++ b'/' ∷ r)
unfolding relative_to
relative_to-path_text [] [] r h = inl refl
relative_to-path_text [] (p ∷ ps) r h = inr (path_text-as_posix p ps ∙ cc)
relative_to-path_text (q ∷ root) [] r h = cc
relative_to-path_text (q ∷ root) (p ∷ path) r h = elim (Bool-cases (text_eq q p)) [
  | inr e ↦ absurd (cc (rw e at h))
  | inl e ↦ further ((text_eq_iff q p).0 e) (relative_to-path_text root path r (rw e at h))
]
  where
    further :
        q ≡ p
        → (path ≡ root) ⊎ (path_text path ≡ path_text root ++ b'/' ∷ r)
        → (p ∷ path ≡ q ∷ root) ⊎ (path_text (p ∷ path) ≡ path_text (q ∷ root) ++ b'/' ∷ r)
    further e (inl f) = inl (cc)
    further e (inr f) = inr (cc (append_assoc q (path_text root) (b'/' ∷ r)))

-- The text of a file at the place
abbrev pub IsAt : Disk → List Text → Text → Text → Type 0
IsAt disk root r s =
    (path : List Text) × (disk (path_text path) ≡ file (text s)) × (relative_to root path ≡ some r)

read_source-IsAt :
    (disk : Disk) (root path : List Text) (c : Content) (r s : Text)
    → disk (path_text path) ≡ file c
    → read_source root path c ≡ found r s
    → IsAt disk root r s
unfolding read_source
read_source-IsAt disk root path (broken f) r s e h = cc
read_source-IsAt disk root path (text t) r s e h = elim (Option-cases (relative_to root path)) [
  | inl n ↦ absurd (cc (rw (n, read_source) at h))
  | inr (q, f) ↦ let g = rw (f, read_source) at h in (path, cc, cc)
]

pub Entry-cases : (e : Entry) → ((c : Content) × (e ≡ file c)) ⊎ (e ≡ absent) ⊎ (e ≡ directory)
Entry-cases absent = inr (inl refl)
Entry-cases directory = inr (inr refl)
Entry-cases (file c) = inl (c, refl)

first_file-IsAt :
    (disk : Disk) (root : List Text) (cs : List (List Text)) (r s : Text)
    → first_file disk root cs ≡ found r s
    → IsAt disk root r s
unfolding first_file
first_file-IsAt disk root [] r s h = cc
first_file-IsAt disk root (c ∷ cs) r s h = elim (Entry-cases (disk (path_text c))) [
  | inl (d, e) ↦ read_source-IsAt disk root c d r s e (rw (e, first_file) at h)
  | inr (inl e) ↦ first_file-IsAt disk root cs r s (rw (e, first_file) at h)
  | inr (inr e) ↦ first_file-IsAt disk root cs r s (rw (e, first_file) at h)
]

pub local_source-IsAt :
    (disk : Disk) (root : List Text) (m r s : Text)
    → local_source disk root m ≡ found r s
    → IsAt disk root r s
unfolding local_source
local_source-IsAt disk root m r s h =
    let (absolute, parts) = join (false, []) (split_at b'.' m) in
    elim (Option-cases (with_suffix (codes ".lean") parts)) [
      | inl n ↦ absurd (cc (rw (n, local_source) at h))
      | inr (lean, e) ↦
          first_file-IsAt disk root
            (under root absolute lean ∷ under root absolute (parts ++ codes "Main.lean" ∷ []) ∷ [])
            r s (rw (e, local_source) at h)
    ]

at_text :
    (disk : Disk) (root : List Text) (r s : Text)
    → disk (path_text root) ≡ directory
    → IsAt disk root r s
    → disk (path_text root ++ b'/' ∷ r) ≡ file (text s)
at_text disk root r s d (path, e, f) = elim (relative_to-path_text root path r f) [
  | inl g ↦ absurd (cc (ap path_text g))
  | inr g ↦ sym (ap disk g) ∙ e
]

-- Where the root is a directory, two modules with the same relative path have the same text.
pub local_source_one :
    (disk : Disk) (root : List Text)
    → disk (path_text root) ≡ directory
    → (p q r s t : Text) → local_source disk root p ≡ found r s
    → local_source disk root q ≡ found r t
    → s ≡ t
local_source_one disk root d p q r s t h k = cc (
  at_text disk root r s d (local_source-IsAt disk root p r s h),
  at_text disk root r t d (local_source-IsAt disk root q r t k),
)
