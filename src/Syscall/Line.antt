-- ===== src/Syscall/Line.antt =====
-- NtReadLine of kernel/syscall/syscall.cpp: the history of lines, completion by Tab, and the editor over the
-- keys that the keyboard gives. A line is the list of its bytes; linebuf has 512 of them.
pub mod Recent
pub mod Complete
pub mod Edit
pub mod Pid
use micro_nt.Base.{
  ℕ, zero, suc, ◌+◌, ◌-◌, ◌*◌, ◌%◌, ◌/◌, ◌^◌, Bool, true, false, not, ◌&&◌, ◌||◌, Option, none,
  some, List, [], ◌∷◌, ◌++◌, length, take, drop, ltb, leb, ◌==◌, if◌then◌else◌, update,
}
use micro_nt.Hal.Keyboard.{key_up, key_down}
use micro_nt.Ldr.{name_eq}

abbrev pub hist_n : ℕ
hist_n = 16

abbrev pub hist_max : ℕ
hist_max = 256

abbrev pub line_room : ℕ
line_room = 512

pub record History : Type 0 where
  pub entries : ℕ → List ℕ
  pub count : ℕ
  pub head : ℕ

-- The entry before the next one to write.
pub is_repeated : List ℕ → History → Bool
is_repeated buf h = ltb 0 h.count && name_eq (h.entries ((h.head + hist_n - 1) % hist_n)) buf

pub hist_add : List ℕ → History → History
hist_add [] h = h
hist_add (c ∷ cs) h = if is_repeated (c ∷ cs) h then h else record {
  entries = update h.entries h.head (take (hist_max - 1) (c ∷ cs));
  head = (h.head + 1) % hist_n;
  count = if ltb h.count hist_n then h.count + 1 else h.count;
}

pub hist_get : ℕ → History → Option (List ℕ)
hist_get back h =
    if back == 0 || ltb h.count back
    then none
    else some (h.entries ((h.head + hist_n - back) % hist_n))

abbrev pub commands : List (List ℕ)
commands =
    (b'v' ∷ b'e' ∷ b'r' ∷ [])
    ∷ (b'd' ∷ b'i' ∷ b'r' ∷ [])
    ∷ (b'm' ∷ b'e' ∷ b'm' ∷ [])
    ∷ (b'p' ∷ b's' ∷ [])
    ∷ (b'e' ∷ b'x' ∷ b'e' ∷ b'c' ∷ [])
    ∷ (b'c' ∷ b'a' ∷ b't' ∷ [])
    ∷ (b'e' ∷ b'c' ∷ b'h' ∷ b'o' ∷ [])
    ∷ (b'w' ∷ b'r' ∷ b'i' ∷ b't' ∷ b'e' ∷ [])
    ∷ (b'h' ∷ b'e' ∷ b'l' ∷ b'p' ∷ [])
    ∷ (b'e' ∷ b'x' ∷ b'i' ∷ b't' ∷ [])
    ∷ (b'c' ∷ b'l' ∷ b'e' ∷ b'a' ∷ b'r' ∷ [])
    ∷ (b'p' ∷ b'i' ∷ b'p' ∷ b'e' ∷ [])
    ∷ []

-- The command begins with the text and is longer.
pub extends : List ℕ → List ℕ → Bool
extends [] buf = false
extends (x ∷ xs) [] = true
extends (x ∷ xs) (y ∷ ys) = let rest = extends xs ys in x == y && rest

-- The commands that are left, with the match so far.
pub complete : Option (List ℕ) → List (List ℕ) → List ℕ → Option (List ℕ)
complete match [] buf = match
complete match (c ∷ cs) buf = elim (extends c buf) [
  | false ↦ complete match cs buf
  | true ↦ elim match [ none ↦ complete (some c) cs buf | some d ↦ none ]
]

pub tab_complete : List ℕ → Option (List ℕ)
tab_complete buf = complete none commands buf

-- linebuf up to n, and hist_pos.
pub record Line : Type 0 where
  pub text : List ℕ
  pub hist_pos : ℕ

pub all_but_last : List ℕ → List ℕ
all_but_last [] = []
all_but_last (x ∷ []) = []
all_but_last (x ∷ (y ∷ ys)) = x ∷ all_but_last (y ∷ ys)

-- An arrow: the entry at the new position, if there is one.
pub recall : ℕ → ℕ → History → Line → Line
recall new_pos maxlen h l =
    if new_pos == 0 then record { text = []; hist_pos = 0 } else elim (hist_get new_pos h) [
      | none ↦ l
      | some entry ↦ record { text = take maxlen entry; hist_pos = new_pos }
    ]

-- A key other than Enter.
pub press : ℕ → ℕ → History → Line → Line
press key maxlen h l =
    if key == 8
    then record l { text = all_but_last l.text }
    else if key == 9
    then elim (tab_complete l.text) [
      | none ↦ l
      | some c ↦ record l {
        text = l.text ++ take (maxlen - length l.text) (drop (length l.text) c);
      }
    ]
    else if key == key_up
    then recall (l.hist_pos + 1) maxlen h l
    else if key == key_down
    then recall (l.hist_pos - 1) maxlen h l
    else record l { text = l.text ++ key ∷ [] }

abbrev pub is_enter : ℕ → Bool
is_enter key = key == 10 || key == 13

-- The line, or none while the editor waits for a key.
pub edit : List ℕ → ℕ → History → Line → Option (List ℕ)
edit [] maxlen h l = if ltb (length l.text) maxlen then none else some l.text
edit (key ∷ keys) maxlen h l =
    let rest = edit keys maxlen h (press key maxlen h l) in
    if not (ltb (length l.text) maxlen)
    then some l.text
    else if is_enter key
    then some l.text
    else rest

abbrev pub fresh_line : Line
fresh_line = record { text = []; hist_pos = 0 }

-- The line that is typed for a buffer of `a2` bytes, and the history with it.
pub read_line : List ℕ → ℕ → History → Option (List ℕ × History)
read_line keys a2 h = elim (edit keys (if ltb 1 a2 then a2 - 1 else 0) h fresh_line) [
  | none ↦ none
  | some text ↦ some (text, hist_add text h)
]

-- The commands that the tests queue, with the next one first.
set_commands : List (List ℕ) → List (List ℕ)
set_commands cmds = take 8 cmds

-- pid = pid * 10 + digit, up to the first byte that is no digit.
pub parse_pid : ℕ → List ℕ → ℕ
parse_pid pid [] = pid
parse_pid pid (c ∷ cs) =
    let rest = parse_pid ((pid * 10 + (c - b'0')) % 2 ^ 32) cs in
    if leb b'0' c && leb c b'9' then rest else pid

-- The digits that pfmt writes, the last one first, and in order; the loop runs once for a digit.
pub digits_back : ℕ → ℕ → List ℕ
digits_back zero v = []
digits_back (suc rounds) v =
    let rest = digits_back rounds (v / 10) in if v == 0 then [] else (b'0' + v % 10) ∷ rest

pub turned : List ℕ → List ℕ → List ℕ
turned [] out = out
turned (x ∷ xs) out = turned xs (x ∷ out)

pub spaces : ℕ → List ℕ
spaces zero = []
spaces (suc n) = b' ' ∷ spaces n

pub pfmt : ℕ → ℕ → List ℕ
pfmt v width =
    let tmp = if v == 0 then b'0' ∷ [] else digits_back 20 v in
    spaces (width - length tmp) ++ turned tmp []

-- What the kernel does with a line itself; `shell` is left to the shell.
pub data Command : Type 0 where
  show_processes save leave shell : Command
  kill : ℕ → Command
  background run_file make_dir remove : List ℕ → Command

pub starts : List ℕ → List ℕ → Bool
starts [] line = true
starts (x ∷ xs) [] = false
starts (x ∷ xs) (y ∷ ys) = let rest = starts xs ys in x == y && rest

-- `word`, a blank and more
abbrev pub is_command : List ℕ → List ℕ → Bool
is_command word line = ltb (length word + 1) (length line) && starts (word ++ b' ' ∷ []) line

pub command_of : List ℕ → Command
command_of line =
    let ps = b'p' ∷ b's' ∷ [] in
    let kill_word = b'k' ∷ b'i' ∷ b'l' ∷ b'l' ∷ [] in
    let bg = b'b' ∷ b'g' ∷ [] in
    let winexec = b'w' ∷ b'i' ∷ b'n' ∷ b'e' ∷ b'x' ∷ b'e' ∷ b'c' ∷ [] in
    let mkdir = b'm' ∷ b'k' ∷ b'd' ∷ b'i' ∷ b'r' ∷ [] in
    let rm = b'r' ∷ b'm' ∷ [] in
    let save_word = b's' ∷ b'a' ∷ b'v' ∷ b'e' ∷ [] in
    let exit = b'e' ∷ b'x' ∷ b'i' ∷ b't' ∷ [] in
    if name_eq line ps
    then show_processes
    else if is_command kill_word line
    then kill (parse_pid 0 (drop 5 line))
    else if is_command bg line
    then background (take 63 (drop 3 line))
    else if is_command winexec line
    then run_file (take 63 (drop 8 line))
    else if is_command mkdir line
    then make_dir (drop 6 line)
    else if is_command rm line
    then remove (drop 3 line)
    else if name_eq line save_word
    then save
    else if starts exit line
    then leave
    else shell
