-- ===== src/StaticFiles/Tests.antt =====
-- A directory with one file, and what is asked of it.
use gargantua.Common.{
  ℕ, Bool, ◌≡◌, refl, Option, some, none, true, ◌&&◌, Bytes, codes, str_eq, contains, ◌==◌,
  if◌then◌else◌,
}
use gargantua.Paths.{next_part}
use gargantua.StaticFiles.{
  Files, static_file_read, strip_prefix, candidate, candidate_fits, open_static_path, open_loop,
  open_part, bad_name, read_open, content_type_for, type_loop, has_suffix,
}
use gargantua.StaticFiles.Served.{Served, static_file_read-Served}

-- Descriptors are numbers: 0 is the root, 1 its directory `css`, 2 the file in it.
abbrev opened : ℕ → Bytes → Bool → Option ℕ
unfolding str_eq
opened d name directory =
    if d == 0 && str_eq name (codes "css")
    then some 1
    else if d == 1 && str_eq name (codes "a.css")
    then some 2
    else none

abbrev small_tree : Files ℕ
small_tree = record {
  root_directory = some 0;
  dup = λ d. some d;
  openat = opened;
  fdopen = λ d. true;
  fstat = λ d. some (d == 2, 4);
  fread = λ d n. codes "b{}\n";
}

read_css :
    static_file_read small_tree (codes "/static") (codes "/static/css/a.css") 100
    ≡ some (codes "b{}\n", codes "text/css; charset=utf-8")
unfolding static_file_read strip_prefix candidate candidate_fits open_static_path open_loop
    open_part bad_name read_open content_type_for type_loop has_suffix next_part str_eq contains
    opened
read_css = refl

read_dots : static_file_read small_tree (codes "/static") (codes "/static/../a.css") 100 ≡ none
unfolding static_file_read strip_prefix candidate candidate_fits open_static_path open_loop
    open_part bad_name read_open content_type_for type_loop has_suffix next_part str_eq contains
    opened
read_dots = refl

static_file_read-Served_example :
    Served small_tree
      (codes "/static")
      (codes "/static/css/a.css")
      100
      (codes "b{}\n")
      (codes "text/css; charset=utf-8")
static_file_read-Served_example =
    static_file_read-Served small_tree (codes "/static") (codes "/static/css/a.css") 100
      (codes "b{}\n") (codes "text/css; charset=utf-8") read_css
