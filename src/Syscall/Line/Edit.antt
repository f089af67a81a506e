-- ===== src/Syscall/Line/Edit.antt =====
-- Lines of keys that type.
use micro_nt.Base.{
  ℕ, ◌+◌, ◌-◌, ◌<◌, ◌≡◌, refl, ap, ◌∙◌, Bool, true, false, not, ◌||◌, some, List, [], ◌∷◌, ◌++◌,
  length, length-append, ltb, ◌==◌, arith,
}
use Prim.{Unit}
use mathlib.Core.List.{append_assoc, append-nil}
use micro_nt.Hal.Keyboard.{key_up, key_down}
use micro_nt.Syscall.Line.{
  History, Line, line_room, is_enter, press, edit, fresh_line, read_line, hist_add,
}

-- A key that the editor adds to the line.
unfoldable pub types : ℕ → Bool
types key = not (key == 8 || key == 9 || key == key_up || key == key_down || is_enter key)

unfoldable pub AllType : List ℕ → Type 0
AllType [] = Unit
AllType (k ∷ ks) = (types k ≡ true) × AllType ks

press-types :
    (key maxlen : ℕ) (h : History) (l : Line)
    → types key ≡ true
    → (press key maxlen h l ≡ record l { text = l.text ++ key ∷ [] }) × (is_enter key ≡ false)
unfolding press types
press-types key maxlen h l t = (ground (arith, t), ground (arith, t))

edit-types :
    (ks keys : List ℕ) (maxlen : ℕ) (h : History) (l : Line)
    → AllType ks
    → length l.text + length ks < maxlen
    → edit (ks ++ 10 ∷ keys) maxlen h l ≡ some (l.text ++ ks)
unfolding edit AllType
edit-types [] keys maxlen h l all lt =
    let room : ltb (length l.text) maxlen ≡ true = ground (arith, lt) in rw (room, append-nil) refl
edit-types (k ∷ ks) keys maxlen h l (t, all) lt =
    let room : ltb (length l.text) maxlen ≡ true = ground (arith, lt) in
    let (next, other) = press-types k maxlen h l t in
    let longer = length-append l.text (k ∷ []) in
    rw (room, other, next)
      (edit-types ks keys maxlen h (record l { text = l.text ++ k ∷ [] }) all
          (omega (arith, longer, lt))
        ∙ ap some (append_assoc l.text (k ∷ []) ks))

-- For more than 512 keys that type, followed by Enter, and a caller's length that exceeds their
-- number by 2 or more, the line that the editor collects and adds to the history is longer than
-- linebuf's 512 bytes.
pub read_line_long :
    (ks keys : List ℕ) (a2 : ℕ) (h : History)
    → AllType ks
    → line_room < length ks
    → length ks + 1 < a2
    → (line : List ℕ) × (read_line (ks ++ 10 ∷ keys) a2 h ≡ some (line, hist_add line h))
      × (line_room < length line)
unfolding read_line
read_line_long ks keys a2 h all long lt =
    let wide : ltb 1 a2 ≡ true = ground (arith, lt) in
    let e = edit-types ks keys (a2 - 1) h fresh_line all (omega (arith, lt)) in
    (ks, rw (wide, e, read_line) refl, long)
