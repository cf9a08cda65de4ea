-- ===== src/Install/Hook/Replace.antt =====
-- An install over a content that holds a block already: UpsertBlock of hookfile.go.
use sshakku.Prelude.{
  Text, newline, Bool, trim_last, Lacks, split, split-Lacks, All, All-append, List, [], ◌∷◌, ◌++◌,
  false, ◌≡◌, refl, ◌∙◌, arith,
}
use sshakku.Install.Hook.{
  marker_start, marker_end, outside_block, trim_blank_tail, write_lines, lines, upsert_block, bare,
  next_skipping,
}
use sshakku.Install.Hook.Lines.{
  lines-write_lines, outside_block-append, IsOrdinary, outside_block_of_IsOrdinary, skipping_after,
}
use sshakku.Install.Hook.Block.{
  own_lines, separated, block_lines, lines-upsert_block, StaysOpen, outside_block-block_lines,
}

block_lines-Lacks : (body : Text) → All (Lacks newline) (block_lines body)
block_lines-Lacks body = (
  omega arith,
  All-append (Lacks newline) (split newline body) (marker_end ∷ []) (split-Lacks newline body)
      (omega arith, tt),
)

skipping_after-last : (b : Bool) (ls : List Text) → skipping_after b (ls ++ marker_end ∷ []) ≡ false
unfolding bare trim_last
skipping_after-last b [] = refl
skipping_after-last b (l ∷ ls) = skipping_after-last (next_skipping b l) ls

-- Nothing is skipped behind a block.
skipping_after-block_lines : (old : Text) → skipping_after false (block_lines old) ≡ false
skipping_after-block_lines old = skipping_after-last false (marker_start ∷ split newline old)

-- A block among ordinary lines holds none of them.
outside_block-around :
    (before after : List Text) (old : Text)
    → All IsOrdinary before
    → All IsOrdinary after
    → StaysOpen old
    → outside_block false (before ++ (block_lines old ++ after)) ≡ before ++ after
outside_block-around before after old hb ha h =
    let (stay, open_again) = outside_block_of_IsOrdinary before hb in
    outside_block-append false before (block_lines old ++ after)
    ∙ rw
        (
          stay,
          open_again,
          outside_block-append false (block_lines old) after,
          outside_block-block_lines old h,
          skipping_after-block_lines old,
          (outside_block_of_IsOrdinary after ha).0,
        )
        refl

-- Where a content holds one block, among lines that are no markers, an install takes the whole of it
-- away, wherever it stands: the lines after it are those that stood around the old block, in order and
-- without the blank ones at the end, a blank line where there are any, and the new block. The old body
-- has no line that ends the block.
pub lines-upsert_over :
    (before after : List Text) (old body : Text)
    → All (Lacks newline) before
    → All (Lacks newline) after
    → All IsOrdinary before
    → All IsOrdinary after
    → StaysOpen old
    → lines (upsert_block (write_lines (before ++ (block_lines old ++ after))) body)
      ≡ separated (trim_blank_tail (before ++ after)) ++ block_lines body
unfolding own_lines
lines-upsert_over before after old body lb la ob oa h =
    lines-upsert_block (write_lines (before ++ (block_lines old ++ after))) body
    ∙ rw
        (
          lines-write_lines (before ++ (block_lines old ++ after)) (
              All-append (Lacks newline) before (block_lines old ++ after) lb
                (All-append (Lacks newline) (block_lines old) after (block_lines-Lacks old) la)),
          outside_block-around before after old ob oa h,
        )
        refl
