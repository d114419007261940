-- ===== src/Dmhy/Jsonl/Tests.antt =====
-- Two saved pages of one row each.
use takuhai.Base.{Bytes, Int64, Option, [], codes, false, none, refl, some, true, ℕ, ◌∷◌, ◌≡◌}
use takuhai.Crawl.Walk.Stream.{pages}
use takuhai.Dmhy.Html.{parse_archive_page, page_posts}
use takuhai.Dmhy.Jsonl.{
  ParseCmd, Outside, some_failed, unparsed, run, emit, emit_file, emit_parsed, write_posts, go_on,
  finish, parse_file, read_input,
}
use takuhai.Dmhy.Jsonl.Archive.{archive_output, saved_files}
use takuhai.Dmhy.Server.{shared}
use takuhai.Rows.{split_at}

abbrev no_scale : Bytes → ℕ → Option Int64
no_scale number mult = none

abbrev one_row_page : Int64 → Int64 → Option Bytes
one_row_page sort_id page = some (codes "<p><tr class=\"\">a")

abbrev page_name : Int64 → Bytes
page_name page = codes "page.html"

abbrev desk : Outside
desk = record {
  read_file = λ name. some (codes "<p><tr class=\"\">a");
  stdin = some (codes "busy");
  creates = λ name. true;
  writes = λ n. true;
}

abbrev two_pages : ParseCmd
two_pages = record { files = saved_files page_name 2 1; out = codes "-"; keep_going = false }

two_pages-run : (run no_scale desk two_pages).1 ≡ none
unfolding run emit emit_file emit_parsed write_posts go_on finish parse_file read_input
    parse_archive_page split_at page_posts
two_pages-run = refl

archive_output_example :
    (run no_scale desk two_pages).0 ≡ pages (shared no_scale one_row_page 2 9) 2 1
archive_output_example =
    archive_output no_scale desk one_row_page 2 9 page_name (λ page. refl) (λ page. refl) two_pages
      2 1 refl two_pages-run

-- A page of stdin that is none of the archive's.
busy_stdin :
    ((run no_scale desk (record { files = codes "-" ∷ []; out = codes "o"; keep_going = true })).1
      ≡ some some_failed)
    × ((run no_scale desk
          (record { files = codes "-" ∷ []; out = codes "o"; keep_going = false })).1
        ≡ some (unparsed (codes "-")))
unfolding run emit emit_file emit_parsed write_posts go_on finish parse_file read_input
    parse_archive_page split_at page_posts
busy_stdin = (refl, refl)
