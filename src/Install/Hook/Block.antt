-- ===== src/Install/Hook/Block.antt =====
-- The marker block put into a content and taken out again: StripBlock and UpsertBlock of
-- hookfile.go, over all contents and all bodies.
use sshakku.Prelude.{
  Text, newline, split, split-Lacks, split-ne-nil, join, join-split, trim_last, Lacks, All,
  All-append, List, [], ◌∷◌, ◌++◌, Bool, true, false, ◌≡◌, ◌≢◌, refl, ap, ◌∙◌, sym, arith,
  append_assoc, append-nil,
}
use sshakku.Install.Hook.{
  bare, marker_start, marker_end, is_end, next_skipping, keeps, outside_block, trim_blank_tail,
  write_lines, lines, strip_block, upsert_block, marker_block, before_block,
}
use sshakku.Install.Hook.Lines.{
  write_lines-append, write_lines-join, lines-write_lines, lines-Lacks, skipping_after,
  outside_block-append, IsOrdinary, outside_block-IsOrdinary, outside_block-All,
  outside_block_of_IsOrdinary, trim_blank_tail-All, trim_blank_tail-append_blank,
  trim_blank_tail_idem, append-cons-ne-nil,
}

-- The lines of a content that its block does not hold, without the blank ones at the end.
unfoldable pub own_lines : Text → List Text
own_lines content = trim_blank_tail (outside_block false (lines content))

-- The blank line that separates what was kept from the block.
abbrev pub separated : List Text → List Text
separated [] = []
separated (l ∷ ls) = (l ∷ ls) ++ [] ∷ []

abbrev pub block_lines : Text → List Text
block_lines body = marker_start ∷ (split newline body ++ marker_end ∷ [])

own_lines-Lacks : (content : Text) → All (Lacks newline) (own_lines content)
unfolding own_lines
own_lines-Lacks content =
    trim_blank_tail-All (Lacks newline) (outside_block false (lines content))
      (outside_block-All (Lacks newline) false (lines content) (lines-Lacks content))

own_lines-IsOrdinary : (content : Text) → All IsOrdinary (own_lines content)
unfolding own_lines
own_lines-IsOrdinary content =
    trim_blank_tail-All IsOrdinary (outside_block false (lines content))
      (outside_block-IsOrdinary false (lines content))

separated-All {κ} : (P : Text → Type κ) (ls : List Text) → P [] → All P ls → All P (separated ls)
separated-All P [] p h = tt
separated-All P (l ∷ ls) p h = All-append P (l ∷ ls) ([] ∷ []) h (p, tt)

write_lines_of_ne_nil :
    (ls : List Text) → ls ≢ [] → write_lines ls ≡ join newline ls ++ (newline ∷ [])
write_lines_of_ne_nil [] h = absurd (h refl)
write_lines_of_ne_nil (l ∷ ls) h = write_lines-join l ls

write_lines-split : (body : Text) → write_lines (split newline body) ≡ body ++ (newline ∷ [])
write_lines-split body =
    write_lines_of_ne_nil (split newline body) (split-ne-nil newline body)
    ∙ ap (λ (t : Text). t ++ (newline ∷ [])) (join-split newline body)

marker_block-write_lines : (body : Text) → marker_block body ≡ write_lines (block_lines body)
marker_block-write_lines body =
    ap (λ (t : Text). marker_start ++ (newline ∷ t))
      (sym (
        write_lines-append (split newline body) (marker_end ∷ [])
        ∙ ap (λ (t : Text). t ++ write_lines (marker_end ∷ [])) (write_lines-split body)
        ∙ append_assoc body (newline ∷ []) (write_lines (marker_end ∷ []))
        ∙ unfold write_lines in refl))
    ∙ unfold write_lines in refl

before_block_of_ne_nil : (t : Text) → t ≢ [] → before_block t ≡ t ++ (newline ∷ [])
before_block_of_ne_nil [] h = absurd (h refl)
before_block_of_ne_nil (c ∷ t) h = refl

before_block-write_lines :
    (ls : List Text) → before_block (write_lines ls) ≡ write_lines (separated ls)
before_block-write_lines [] = unfold write_lines in refl
before_block-write_lines (l ∷ ls) =
    before_block_of_ne_nil (write_lines (l ∷ ls))
      (rw write_lines-join (append-cons-ne-nil (join newline (l ∷ ls)) newline []))
    ∙ sym (write_lines-append (l ∷ ls) ([] ∷ []) ∙ unfold write_lines in refl)

-- The lines after an install: the content's own lines, a blank line where there are any, and the
-- block once, its body between the markers.
pub lines-upsert_block :
    (content body : Text)
    → lines (upsert_block content body) ≡ separated (own_lines content) ++ block_lines body
unfolding upsert_block strip_block own_lines
lines-upsert_block content body =
    ap lines (
      ap (λ (t : Text). t ++ marker_block body) (before_block-write_lines (own_lines content))
      ∙ ap (λ (t : Text). write_lines (separated (own_lines content)) ++ t)
          (marker_block-write_lines body)
      ∙ sym (write_lines-append (separated (own_lines content)) (block_lines body)))
    ∙ lines-write_lines (separated (own_lines content) ++ block_lines body) (
        All-append (Lacks newline) (separated (own_lines content)) (block_lines body)
          (separated-All (Lacks newline) (own_lines content) tt (own_lines-Lacks content))
          (
            omega arith,
            All-append (Lacks newline) (split newline body) (marker_end ∷ [])
                (split-Lacks newline body) (omega arith, tt),
          ))

-- The body has no line that would end the block early.
abbrev pub StaysOpen : Text → Type 0
StaysOpen body = All (λ l. is_end l ≡ false) (split newline body)

skips_open_line :
    (l : Text) → is_end l ≡ false → (next_skipping true l ≡ true) × (keeps true l ≡ false)
skips_open_line l h = ground arith

skips_open :
    (ls : List Text)
    → All (λ l. is_end l ≡ false) ls
    → (outside_block true ls ≡ []) × (skipping_after true ls ≡ true)
unfolding outside_block
skips_open [] h = (refl, refl)
skips_open (l ∷ ls) h =
    let (still, dropped) = skips_open_line l h.0 in rw (dropped, still) (skips_open ls h.1)

marker_end_dropped : (b : Bool) → outside_block b (marker_end ∷ []) ≡ []
unfolding outside_block bare trim_last
marker_end_dropped b = refl

outside_block-body :
    (body : Text) → StaysOpen body → outside_block true (split newline body ++ marker_end ∷ []) ≡ []
outside_block-body body h =
    outside_block-append true (split newline body) (marker_end ∷ [])
    ∙ rw (skips_open (split newline body) h).0 (marker_end_dropped _)

-- A block whose body stays open holds no line of the content.
pub outside_block-block_lines :
    (body : Text) → StaysOpen body → outside_block false (block_lines body) ≡ []
unfolding outside_block bare trim_last
outside_block-block_lines body h = outside_block-body body h

separated-IsOrdinary : (content : Text) → All IsOrdinary (separated (own_lines content))
unfolding bare trim_last
separated-IsOrdinary content =
    separated-All IsOrdinary (own_lines content) refl (own_lines-IsOrdinary content)

trim-separated : (ls : List Text) → trim_blank_tail (separated ls) ≡ trim_blank_tail ls
trim-separated [] = refl
trim-separated (l ∷ ls) = trim_blank_tail-append_blank (l ∷ ls) [] (unfold bare trim_last in refl)

outside_block-installed :
    (content body : Text)
    → StaysOpen body
    → outside_block false (separated (own_lines content) ++ block_lines body)
      ≡ separated (own_lines content)
outside_block-installed content body h =
    let own = separated (own_lines content) in
    let (stay, open_again) = outside_block_of_IsOrdinary own (separated-IsOrdinary content) in
    outside_block-append false own (block_lines body)
    ∙ rw (stay, open_again, outside_block-block_lines body h) (append-nil own)

-- The own lines of a content with a block put into it are those that it had.
own_lines-upsert_block :
    (content body : Text)
    → StaysOpen body
    → own_lines (upsert_block content body) ≡ own_lines content
unfolding own_lines
own_lines-upsert_block content body h =
    ap (λ (ls : List Text). trim_blank_tail (outside_block false ls))
      (lines-upsert_block content body)
    ∙ ap trim_blank_tail (outside_block-installed content body h)
    ∙ trim-separated (own_lines content)
    ∙ trim_blank_tail_idem (outside_block false (lines content))

-- Lines that an uninstall leaves alone: whole ones, no markers, and no blank one at the end.
pub record IsSettled (ls : List Text) : Type 0 where
  pub whole : All (Lacks newline) ls
  pub ordinary : All IsOrdinary ls
  pub ended : trim_blank_tail ls ≡ ls

-- What an uninstall leaves after an install is what it would have left before it, for a body with
-- no line that ends the block.
pub strip_block-upsert_block :
    (content body : Text)
    → StaysOpen body
    → strip_block (upsert_block content body) ≡ strip_block content
unfolding strip_block own_lines
strip_block-upsert_block content body h = ap write_lines (own_lines-upsert_block content body h)

-- A second install replaces the block of the first, and adds nothing else, where the first body
-- had no line that ends the block.
pub upsert_block-upsert_block :
    (content old body : Text)
    → StaysOpen old
    → upsert_block (upsert_block content old) body ≡ upsert_block content body
unfolding upsert_block
upsert_block-upsert_block content old body h =
    ap (λ (t : Text). before_block t ++ marker_block body) (strip_block-upsert_block content old h)

-- The own lines of what is written from settled lines are those lines.
own_lines-write_lines : (ls : List Text) → IsSettled ls → own_lines (write_lines ls) ≡ ls
unfolding own_lines
own_lines-write_lines ls s =
    rw (lines-write_lines ls s.whole) (rw (outside_block_of_IsOrdinary ls s.ordinary).0 s.ended)

own_lines-IsSettled : (content : Text) → IsSettled (own_lines content)
own_lines-IsSettled content = record {
  whole = own_lines-Lacks content;
  ordinary = own_lines-IsOrdinary content;
  ended = unfold own_lines in trim_blank_tail_idem (outside_block false (lines content));
}

-- An uninstall run again changes nothing more.
pub strip_block_idem : (content : Text) → strip_block (strip_block content) ≡ strip_block content
unfolding strip_block own_lines
strip_block_idem content =
    ap write_lines (own_lines-write_lines (own_lines content) (own_lines-IsSettled content))

-- Installing into settled content and uninstalling gives it back byte for byte, for a body with no
-- line that ends the block. Settled content is whole lines, no markers and no blank line at the
-- end.
pub round_trip :
    (ls : List Text) (body : Text)
    → IsSettled ls
    → StaysOpen body
    → strip_block (upsert_block (write_lines ls) body) ≡ write_lines ls
unfolding strip_block own_lines
round_trip ls body s h =
    strip_block-upsert_block (write_lines ls) body h ∙ ap write_lines (own_lines-write_lines ls s)
