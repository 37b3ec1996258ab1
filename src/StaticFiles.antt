-- ===== src/StaticFiles.antt =====
-- The files that a server gives out: src/http/static_files.c with include/static_files.h. The operating system's
-- calls are the parameter `files`, over its descriptors `D`; -1 is `none`. The closing of descriptors is left out.
pub mod Served
mod Tests
use gargantua.Common.{
  ℕ, zero, suc, ◌+◌, ◌-◌, ◌*◌, Bool, true, false, not, ◌&&◌, ◌||◌, Option, none, some, List, [],
  ◌∷◌, ◌++◌, Bytes, codes, contains, str_eq, length, take, drop, ltb, leb, ◌==◌, if◌then◌else◌,
  ◌>>=◌, ◌>>◌, guard,
}
use gargantua.Paths.{next_part}

abbrev pub static_max_path : ℕ
static_max_path = 1024

abbrev pub static_max_bytes : ℕ
static_max_bytes = 256 * 1024

-- `openat` is told whether `O_DIRECTORY` is set, beside the flags of every call; `fstat` says whether the file is
-- regular, and its size; `fread` gives up to so many bytes.
pub record Files (D : Type 0) : Type 0 where
  pub root_directory : Option D
  pub dup : D → Option D
  pub openat : D → Bytes → Bool → Option D
  pub fdopen : D → Bool
  pub fstat : D → Option (Bool × ℕ)
  pub fread : D → ℕ → Bytes

abbrev pub type_table : List (Bytes × Bytes)
type_table =
    (codes ".html", codes "text/html; charset=utf-8")
    ∷ (codes ".htm", codes "text/html; charset=utf-8")
    ∷ (codes ".css", codes "text/css; charset=utf-8")
    ∷ (codes ".mjs", codes "text/javascript; charset=utf-8")
    ∷ (codes ".js", codes "text/javascript; charset=utf-8")
    ∷ (codes ".json", codes "application/json; charset=utf-8")
    ∷ (codes ".map", codes "application/json; charset=utf-8")
    ∷ (codes ".xml", codes "application/xml; charset=utf-8")
    ∷ (codes ".txt", codes "text/plain; charset=utf-8")
    ∷ (codes ".csv", codes "text/csv; charset=utf-8")
    ∷ (codes ".svg", codes "image/svg+xml")
    ∷ (codes ".png", codes "image/png")
    ∷ (codes ".jpg", codes "image/jpeg")
    ∷ (codes ".jpeg", codes "image/jpeg")
    ∷ (codes ".gif", codes "image/gif")
    ∷ (codes ".webp", codes "image/webp")
    ∷ (codes ".ico", codes "image/x-icon")
    ∷ (codes ".pdf", codes "application/pdf")
    ∷ (codes ".wasm", codes "application/wasm")
    ∷ (codes ".woff2", codes "font/woff2")
    ∷ (codes ".woff", codes "font/woff")
    ∷ (codes ".ttf", codes "font/ttf")
    ∷ []

pub has_suffix : Bytes → Bytes → Bool
has_suffix path suffix =
    ltb (length suffix) (length path) && str_eq (drop (length path - length suffix) path) suffix

pub type_loop : List (Bytes × Bytes) → Bytes → Bytes
type_loop [] path = codes "application/octet-stream"
type_loop ((suffix, type) ∷ table) path =
    if has_suffix path suffix then type else type_loop table path

pub content_type_for : Bytes → Bytes
content_type_for path = type_loop type_table path

abbrev pub ends_here : Bytes → Bool
ends_here [] = true
ends_here (c ∷ s) = c == b'/'

pub strip_prefix : Bytes → Bytes → Option Bytes
strip_prefix prefix url_path = do
  guard (str_eq (take (length prefix) url_path) prefix)
  guard (ends_here (drop (length prefix) url_path))
  some (drop (length prefix) url_path)

abbrev pub starts_dot : Bytes → Bool
starts_dot [] = false
starts_dot (c ∷ s) = c == b'.'

pub bad_name : Bytes → Bool
bad_name part = length part == 0 || starts_dot part || contains part b'\\'

abbrev pub ends_slash : Bytes → Bool
ends_slash [] = false
ends_slash (c ∷ s) = if length s == 0 then c == b'/' else ends_slash s

-- `rest` without its first slash, and the name of the index where it ends a directory.
pub candidate : Bytes → Bytes
candidate [] = codes "index.html"
candidate (c ∷ s) =
    (if c == b'/' then s else c ∷ s) ++ (if ends_slash (c ∷ s) then codes "index.html" else [])

pub candidate_fits : Bytes → Option Bytes
candidate_fits path = guard (ltb 0 (length path) && ltb (length path) static_max_path) >> some path

-- One part is opened, and `next` what stands behind its slash.
pub open_part :
    {D : Type 0} → Files D → (D → Bytes → Option D) → D → Bytes → Option Bytes → Option D
open_part files next directory part none = files.openat directory part false
open_part files next directory part (some rest) = do
  d ← files.openat directory part true
  next d rest

pub open_loop : {D : Type 0} → Files D → ℕ → D → Bytes → Option D
open_loop files zero directory path = none
open_loop files (suc steps) directory path =
    let (part, rest) = next_part path in
    guard (not (bad_name part)) >> open_part files (open_loop files steps) directory part rest

pub open_static_path : {D : Type 0} → Files D → D → Bytes → Option D
open_static_path files root path = do
  directory ← files.dup root
  open_loop files static_max_path directory path

-- What is read of an open file.
pub read_open : {D : Type 0} → Files D → ℕ → D → Option Bytes
read_open files limit d = do
  guard (files.fdopen d)
  (regular, size) ← files.fstat d
  guard (regular && leb size limit && leb size static_max_bytes)
  guard (length (files.fread d size) == size)
  some (files.fread d size)

-- The bytes and the content type; `prefix` is `g_prefix`, and `limit` the size of `out`.
pub static_file_read : {D : Type 0} → Files D → Bytes → Bytes → ℕ → Option (Bytes × Bytes)
static_file_read files prefix url_path limit = do
  root ← files.root_directory
  rest ← strip_prefix prefix url_path
  path ← candidate_fits (candidate rest)
  d ← open_static_path files root path
  body ← read_open files limit d
  some (body, content_type_for path)
