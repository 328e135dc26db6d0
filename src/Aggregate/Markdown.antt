-- ===== src/Aggregate/Markdown.antt =====
-- flowcat-core/src/agent/text_filter.rs: the filter that takes Markdown out of text to be spoken.
use flowcat.Base.{
  ℕ, zero, suc, ◌-◌, Bool, true, false, not, ◌&&◌, List, [], ◌∷◌, ◌++◌, Option, none, some,
  if◌then◌else◌, ◌==◌, length, take, keep_if,
}
use flowcat.Base.Text.{Text, codes, starts_with}
use flowcat.Base.Values.{and_then, map_some, or_else, unwrap_or}
use flowcat.Base.Scan.{cut, trim_start, trim_start_by, strip_prefix}

-- `split_inclusive('\n')` with `strip_suffix('\n')`: each line, and whether a newline ends it.
abbrev pub extend_line : ℕ → List (Text × Bool) → List (Text × Bool)
extend_line c [] = (c ∷ [], false) ∷ []
extend_line c (line ∷ lines) = (c ∷ line.0, line.1) ∷ lines

unfoldable pub split_lines : Text → List (Text × Bool)
split_lines [] = []
split_lines (c ∷ s) =
    let rest = split_lines s in if c == 10 then ([], true) ∷ rest else extend_line c rest

-- The text of a link whose bracket is open, and what follows the link.
unfoldable pub link_at : Text → Option (Text × Text)
unfolding cut starts_with
link_at s = and_then (cut (codes "]") s) λ closed.
    if starts_with closed.1 (codes "(")
    then map_some (λ target. (closed.0, target.1)) (cut (codes ")") closed.1)
    else none

-- Each turn of the loop costs a unit of fuel.
unfoldable pub collapse_from : ℕ → Text → Text
unfolding link_at
collapse_from zero s = s
collapse_from (suc fuel) [] = []
collapse_from (suc fuel) (c ∷ s) = elim (if c == 91 then link_at s else none) [
  | some parts ↦ parts.0 ++ collapse_from fuel parts.1
  | none ↦ c ∷ collapse_from fuel s
]

unfoldable pub collapse_links : Text → Text
unfolding collapse_from
collapse_links s = collapse_from (length s) s

-- `replace(pat, "")` for a text that is not empty, each place found on a unit of fuel.
unfoldable pub remove_each : ℕ → Text → Text → Text
unfolding cut
remove_each zero pat s = s
remove_each (suc fuel) pat s = elim (cut pat s) [
  | none ↦ s
  | some parts ↦ parts.0 ++ remove_each fuel pat parts.1
]

unfoldable pub remove_text : Text → Text → Text
unfolding remove_each
remove_text pat s = remove_each (length s) pat s

unfoldable pub strip_inline_markdown : Text → Text
unfolding collapse_links remove_text
strip_inline_markdown s =
    let marks = remove_text (codes "__") (remove_text (codes "**") (collapse_links s)) in
    let code_free = keep_if (λ c. not (c == 96)) marks in
    let plain = remove_text (codes "http://") (remove_text (codes "https://") code_free) in
    keep_if (λ c. not (c == 42) && not (c == 95)) plain

unfoldable pub strip_bullet : Text → Text
unfolding strip_prefix
strip_bullet s = unwrap_or s (
    or_else (strip_prefix (codes "- ") s)
      (or_else (strip_prefix (codes "* ") s) (strip_prefix (codes "+ ") s)))

-- The line without its newline.
unfoldable pub clean_line : Text → Text
unfolding trim_start trim_start_by strip_bullet strip_inline_markdown
clean_line body =
    let trimmed = trim_start body in
    let lead_ws = take (length body - length trimmed) body in
    let heading = trim_start (trim_start_by (λ c. c == 35) trimmed) in
    let quote = trim_start (trim_start_by (λ c. c == 62) heading) in
    lead_ws ++ strip_inline_markdown (strip_bullet quote)

unfoldable pub clean_lines : List (Text × Bool) → Text
unfolding clean_line
clean_lines [] = []
clean_lines (line ∷ lines) =
    clean_line line.0 ++ ((if line.1 then 10 ∷ [] else []) ++ clean_lines lines)

-- `MarkdownTextFilter::filter`, given whether it is enabled.
unfoldable pub filter : Bool → Text → Text
unfolding split_lines clean_lines
filter enabled s = if not enabled then s else clean_lines (split_lines s)
