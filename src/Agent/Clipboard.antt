-- ===== src/Agent/Clipboard.antt =====
-- http_server.cpp: `copy_to_clipboard`, over the calls of Windows that it makes.
use windbg_agent.Base.{
  ℕ, ◌+◌, ◌-◌, ◌≡◌, Bool, true, false, not, Option, none, some, Bytes, if◌then◌else◌, arith, ◌&&◌,
  ◌++◌, [], ◌∷◌,
}

-- The clipboard: whether this program holds it open, and its text; and the memory blocks that the
-- program allocated and neither freed nor gave away.
pub record Clipboard : Type 0 where
  pub held : Bool
  pub content : Option Bytes
  pub blocks : ℕ

-- Which of `OpenClipboard`, `GlobalAlloc` and `SetClipboardData` succeed.
pub record Answers : Type 0 where
  pub opens : Bool
  pub allocates : Bool
  pub sets : Bool

-- `EmptyClipboard`
abbrev pub emptied : Clipboard → Clipboard
emptied c = record c { content = none }

-- `CloseClipboard`
abbrev pub close : Clipboard → Clipboard
close c = record c { held = false }

-- `SetClipboardData` takes the block where it succeeds. The block holds the text and a zero.
abbrev pub set_data : Bool → Bytes → Clipboard → Clipboard
set_data sets block c = if sets then record c { content = some block; blocks = c.blocks - 1 } else c

unfoldable pub copy_to_clipboard : Answers → Bytes → Clipboard → Clipboard × Bool
copy_to_clipboard a text c =
    let opened = emptied (record c { held = true }) in
    if not a.opens then (c, false) else if not a.allocates then (close opened, false) else (
      close (set_data a.sets (text ++ 0 ∷ []) (record opened { blocks = opened.blocks + 1 })),
      true,
    )

-- The clipboard is never left open. What was in it stays only where it could not be opened; it is the
-- new text exactly where all the calls succeed, and then no memory is left over. Where
-- `SetClipboardData` fails, the clipboard is empty and the block is lost, but the result is a success.
pub copy_to_clipboard_lem :
    (a : Answers) (text : Bytes) (c : Clipboard)
    → c.held ≡ false
    → let (c', r) = copy_to_clipboard a text c in
      (c'.held ≡ false)
      × (r ≡ (a.opens && a.allocates))
      × (c'.content ≡ (
          if not a.opens
          then c.content
          else if a.allocates && a.sets
          then some (text ++ 0 ∷ [])
          else none))
      × (c'.blocks ≡ c.blocks + (if a.opens && a.allocates && not a.sets then 1 else 0))
unfolding copy_to_clipboard
copy_to_clipboard_lem a text c h = ground arith
