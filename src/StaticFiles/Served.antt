-- ===== src/StaticFiles/Served.antt =====
-- The files that `static_file_read` of src/http/static_files.c gives out.
use mathlib.Core.Path.{subst}
use gargantua.Common.{
  ℕ, zero, suc, ◌≤◌, ◌<◌, Bool, true, false, not, ◌&&◌, Option, none, some, List, [], ◌∷◌, ◌++◌,
  Bytes, contains, str_eq, str_eq_iff, length, take, drop, take-append-drop, ltb, leb, ◌==◌, ==_iff,
  ◌>>=◌, ◌>>◌, guard, >>=-eq-some, guard-eq-some, some_inj, some-ne-none, Bool-cases, All, ◌≡◌, ◌≢◌,
  inl, inr, refl, sym, ap, ◌∙◌, arith,
}
use gargantua.Paths.{next_part}
use gargantua.Paths.Safe.{pieces, Next, next_part-Next}
use gargantua.StaticFiles.{
  static_max_path, static_max_bytes, Files, content_type_for, strip_prefix, ends_here, starts_dot,
  bad_name, candidate, candidate_fits, open_part, open_loop, open_static_path, read_open,
  static_file_read,
}

-- A name that is looked up in a directory: neither hidden nor `.` nor `..`, and with no slash of any kind.
abbrev pub IsVisible : Bytes → Type 0
IsVisible p =
    (p ≢ []) × (starts_dot p ≡ false) × (contains p b'/' ≡ false) × (contains p b'\\' ≡ false)

-- Each name is opened in the directory before it, all but the last one as directories.
abbrev pub Walks : {D : Type 0} → Files D → D → List Bytes → D → Type 0
Walks files d [] r = ⊥
Walks files d (p ∷ []) r = files.openat d p false ≡ some r
Walks {D} files d (p ∷ q ∷ ps) r =
    (e : D) × (files.openat d p true ≡ some e) × Walks files e (q ∷ ps) r

bad_name-IsVisible : (p : Bytes) → not (bad_name p) ≡ true → contains p b'/' ≡ false → IsVisible p
unfolding bad_name
bad_name-IsVisible [] h no_slash = absurd (ground (arith, h))
bad_name-IsVisible (c ∷ p) h no_slash =
    (λ e. omega (arith, ap length e), ground (arith, h), no_slash, ground (arith, h))

pieces-cons : (s : Bytes) → (q : Bytes) × (qs : List Bytes) × (pieces s ≡ q ∷ qs)
pieces-cons [] = ([], [], refl)
pieces-cons (c ∷ s) = elim (Bool-cases (c == b'/')) [
  | inl slash ↦ ([], pieces s, rw slash refl)
  | inr other ↦ let (q, qs, e) = pieces-cons s in (c ∷ q, qs, rw (other, e) refl)
]

Walks-cons :
    {D : Type 0} (files : Files D) (d e r : D) (p s : Bytes)
    → files.openat d p true ≡ some e
    → Walks files e (pieces s) r
    → Walks files d (p ∷ pieces s) r
Walks-cons files d e r p s opened walk =
    let (q, qs, shape) = pieces-cons s in
    subst (λ l. Walks files d (p ∷ l) r) (sym shape)
      (e, opened, subst (λ l. Walks files e l r) shape walk)

-- What a walk along the text opens.
abbrev Opens : {D : Type 0} → Files D → D → Bytes → D → Type 0
Opens files d s r = Walks files d (pieces s) r × All IsVisible (pieces s)

open_part-Opens :
    {D : Type 0} (files : Files D) (next : D → Bytes → Option D) (d r : D) (s : Bytes)
    (o : Bytes × Option Bytes)
    → Next s o
    → ((e : D) (t : Bytes) → next e t ≡ some r → Opens files e t r)
    → not (bad_name o.0) ≡ true
    → open_part files next d o.0 o.1 ≡ some r
    → Opens files d s r
unfolding open_part
open_part-Opens files next d r s (p, none) (shape, no_slash) ih good e =
    rw shape (e, (bad_name-IsVisible p good no_slash, tt))
open_part-Opens files next d r s (p, some t) (shape, no_slash, shorter) ih good e =
    let (f, opened, more) = >>=-eq-some (files.openat d p true) (λ f. next f t) e in
    let (walk, visible) = ih f t more in
    rw shape (Walks-cons files d f r p t opened walk, (bad_name-IsVisible p good no_slash, visible))

open_loop-Opens :
    {D : Type 0} (files : Files D) (steps : ℕ) (d r : D) (s : Bytes)
    → open_loop files steps d s ≡ some r
    → Opens files d s r
unfolding open_loop
open_loop-Opens files zero d r s e = absurd (some-ne-none (sym e))
open_loop-Opens files (suc steps) d r s e =
    let (part, rest) = next_part s in
    let (good, e') =
      guard-eq-some (not (bad_name (next_part s).0))
        (open_part files (open_loop files steps) d (next_part s).0 (next_part s).1) e in
    open_part-Opens files (open_loop files steps) d r s (next_part s) (next_part-Next s)
      (λ f t made. open_loop-Opens files steps f r t made) good e'

-- A regular file, read whole.
pub record WholeFile {D : Type 0} (files : Files D) (limit : ℕ) (d : D) (body : Bytes)
    : Type 0 where
  pub regular : files.fstat d ≡ some (true, length body)
  pub within_limit : length body ≤ limit
  pub bounded : length body ≤ static_max_bytes
  pub whole : body ≡ files.fread d (length body)

-- The text behind the prefix gives the path of the file.
pub record Served {D : Type 0} (files : Files D) (prefix url_path : Bytes) (limit : ℕ)
    (body type : Bytes) : Type 0 where
  pub root : D
  pub is_root : files.root_directory ≡ some root
  pub start : D
  pub is_start : files.dup root ≡ some start
  pub rest : Bytes
  pub below_prefix : (url_path ≡ prefix ++ rest) × (ends_here rest ≡ true)
  pub file : D
  pub walk : Walks files start (pieces (candidate rest)) file
  pub visible : All IsVisible (pieces (candidate rest))
  pub short : length (candidate rest) < static_max_path
  pub read : WholeFile files limit file body
  pub typed : type ≡ content_type_for (candidate rest)

strip_prefix-below :
    (prefix url_path rest : Bytes)
    → strip_prefix prefix url_path ≡ some rest
    → (url_path ≡ prefix ++ rest) × (ends_here rest ≡ true)
unfolding strip_prefix
strip_prefix-below prefix url_path rest e =
    let n = length prefix in
    let (same, e1) =
      guard-eq-some (str_eq (take n url_path) prefix)
        (guard (ends_here (drop n url_path)) >> some (drop n url_path)) e in
    let (ends, e2) = guard-eq-some (ends_here (drop n url_path)) (some (drop n url_path)) e1 in
    let left = some_inj e2 in
    (
      sym (take-append-drop n url_path)
          ∙ ap (λ l. l ++ drop n url_path) ((str_eq_iff (take n url_path) prefix).0 same)
          ∙ ap (λ l. prefix ++ l) left,
      ap ends_here (sym left) ∙ ends,
    )

read_open-WholeFile :
    {D : Type 0} (files : Files D) (limit : ℕ) (d : D) (body : Bytes)
    → read_open files limit d ≡ some body
    → WholeFile files limit d body
unfolding read_open
read_open-WholeFile files limit d body e =
    let tests : Bool × ℕ → Option Bytes = λ info.
      guard (info.0 && leb info.1 limit && leb info.1 static_max_bytes)
      >> (guard (length (files.fread d info.1) == info.1) >> some (files.fread d info.1)) in
    let (stream, e1) = guard-eq-some (files.fdopen d) (files.fstat d >>= tests) e in
    let ((regular, size), at, e2) = >>=-eq-some (files.fstat d) tests e1 in
    let (fits, e3) =
      guard-eq-some (regular && leb size limit && leb size static_max_bytes)
        (guard (length (files.fread d size) == size) >> some (files.fread d size)) e2 in
    let (count, e4) =
      guard-eq-some (length (files.fread d size) == size) (some (files.fread d size)) e3 in
    let read = some_inj e4 in
    let total : length body ≡ size =
      ap length (sym read) ∙ (==_iff (length (files.fread d size)) size).0 count in
    let plain : regular ≡ true = ground (arith, fits) in
    record {
      regular = at ∙ ap (λ b. some (b, size)) plain ∙ ap (λ n. some (true, n)) (sym total);
      within_limit = ground (arith, fits, total);
      bounded = ground (arith, fits, total);
      whole = sym read ∙ ap (λ n. files.fread d n) (sym total);
    }

-- What `static_file_read` gives out is a regular file, read whole, of at most `limit` and `static_max_bytes` bytes, under its
-- content type. Its URL path is the prefix and a path that ends there or goes on with a slash; the file was reached
-- from the root directory by opening the path's parts one by one, each in the one before it, all but the last
-- as directories; and no part is empty, begins with a dot or has a backslash.
pub static_file_read-Served :
    {D : Type 0} (files : Files D) (prefix url_path : Bytes) (limit : ℕ) (body type : Bytes)
    → static_file_read files prefix url_path limit ≡ some (body, type)
    → Served files prefix url_path limit body type
unfolding static_file_read candidate_fits open_static_path
static_file_read-Served {D} files prefix url_path limit body type e =
    let finish : Bytes → D → Option (Bytes × Bytes) =
      λ path d. read_open files limit d >>= λ body. some (body, content_type_for path) in
    let opened : D → Bytes → Option (Bytes × Bytes) =
      λ root path. open_static_path files root path >>= finish path in
    let behind : D → Bytes → Option (Bytes × Bytes) =
      λ root rest. candidate_fits (candidate rest) >>= opened root in
    let (root, is_root, e1) =
      >>=-eq-some files.root_directory (λ root. strip_prefix prefix url_path >>= behind root) e in
    let (rest, below, e2) = >>=-eq-some (strip_prefix prefix url_path) (behind root) e1 in
    let (path, fits, e3) = >>=-eq-some (candidate_fits (candidate rest)) (opened root) e2 in
    let (short, same) =
      guard-eq-some
        (ltb 0 (length (candidate rest)) && ltb (length (candidate rest)) static_max_path)
        (some (candidate rest)) fits in
    let is_path : path ≡ candidate rest = sym (some_inj same) in
    let (file, walked, e4) = >>=-eq-some (open_static_path files root path) (finish path) e3 in
    let (start, is_start, looped) =
      >>=-eq-some (files.dup root) (λ d. open_loop files static_max_path d path) walked in
    let (read, was_read, e5) =
      >>=-eq-some (read_open files limit file) (λ body. some (body, content_type_for path)) e4 in
    let answer = some_inj e5 in
    let opens =
      subst (λ p. Opens files start p file) is_path
        (open_loop-Opens files static_max_path start file path looped) in
    record {
      root = root;
      is_root = is_root;
      start = start;
      is_start = is_start;
      rest = rest;
      below_prefix = strip_prefix-below prefix url_path rest below;
      file = file;
      walk = opens.0;
      visible = opens.1;
      short = ground (arith, short);
      read =
          subst (WholeFile files limit file) (ap (λ a. a.0) answer)
            (read_open-WholeFile files limit file read was_read);
      typed = sym (ap (λ a. a.1) answer) ∙ ap content_type_for is_path;
    }
