-- ===== src/Hal/Keyboard/Typing.antt =====
-- What the readers of the keyboard get, for any order of interrupts and reads.
use micro_nt.Base.{
  ℕ, ◌+◌, ◌%◌, ◌≡◌, refl, ap₂, inl, inr, Bool, true, false, not, ◌||◌, Option, none, some, List, [],
  ◌∷◌, ◌++◌, length, ltb, leb, ◌==◌, if◌then◌else◌, arith, Bool-cases,
}
use micro_nt.Hal.Ring.Queue.{Holds, push-Holds, try_read-Holds, first, rest}
use micro_nt.Hal.Keyboard.{
  Keyboard, key_up, key_down, key_left, key_right, ring_slots, put, extended_key, char_of,
  handle_irq, read_key,
}

-- The keys that a scan code depends on.
pub record Keys : Type 0 where
  pub shift : Bool
  pub capslock : Bool
  pub ext : Bool

-- The arrow keys have a character of their own, other keys after the prefix none.
unfoldable pub arrow : ℕ → Option ℕ
arrow make =
    if make == 0x48
    then some key_up
    else if make == 0x50
    then some key_down
    else if make == 0x4B
    then some key_left
    else if make == 0x4D
    then some key_right
    else none

-- What a scan code types, and the keys after it.
unfoldable pub types : ℕ → Keys → Option ℕ × Keys
types sc k =
    let released = leb 128 sc in
    let make = sc % 128 in
    let c = char_of k.shift k.capslock make in
    if sc == 0xE0
    then (none, record k { ext = true })
    else if k.ext
    then (if released then none else arrow make, record k { ext = false })
    else if make == 0x2A || make == 0x36
    then (none, record k { shift = not released })
    else if released
    then (none, k)
    else if make == 0x3A
    then (none, record k { capslock = not k.capslock })
    else (if c == 0 then none else some c, k)

-- A queue of at most 127 characters drops what is typed when it is full.
unfoldable pub typed : Option ℕ → List ℕ → List ℕ
typed none q = q
typed (some c) q = if ltb (length q + 1) ring_slots then q ++ c ∷ [] else q

pub data Event : Type 0 where
  irq : ℕ → Event
  read : Event

-- What the reads return: by the code, and by the keys and a queue.
pub run : List Event → Keyboard → List (Option ℕ)
run [] kb = []
run (irq sc ∷ es) kb = run es (handle_irq sc kb)
run (read ∷ es) kb = let (out, next) = read_key kb in out ∷ run es next

pub expect : List Event → Keys → List ℕ → List (Option ℕ)
expect [] k q = []
expect (irq sc ∷ es) k q = let (c, next) = types sc k in expect es next (typed c q)
expect (read ∷ es) k q = first q ∷ expect es k (rest q)

pub record Shows (kb : Keyboard) (k : Keys) (q : List ℕ) : Type 0 where
  pub holds : Holds ring_slots kb.buffer q
  pub shift : kb.shift ≡ k.shift
  pub capslock : kb.capslock ≡ k.capslock
  pub ext : kb.ext ≡ k.ext

put-Shows :
    (c : ℕ) (kb : Keyboard) (k : Keys) (q : List ℕ)
    → Shows kb k q
    → Shows (put c kb) k (typed (some c) q)
unfolding put typed
put-Shows c kb k q v = record {
  holds = push-Holds ring_slots c kb.buffer q (omega arith) v.holds;
  shift = v.shift;
  capslock = v.capslock;
  ext = v.ext;
}

extended_key-Shows :
    (make : ℕ) (kb : Keyboard) (k : Keys) (q : List ℕ)
    → Shows kb k q
    → Shows (extended_key make kb) k (typed (arrow make) q)
unfolding extended_key arrow typed
extended_key-Shows make kb k q v = elim (Bool-cases (make == 0x48)) [
  | inl e ↦ rw e (put-Shows key_up kb k q v)
  | inr n1 ↦ elim (Bool-cases (make == 0x50)) [
    | inl e ↦ rw (n1, e) (put-Shows key_down kb k q v)
    | inr n2 ↦ elim (Bool-cases (make == 0x4B)) [
      | inl e ↦ rw (n1, n2, e) (put-Shows key_left kb k q v)
      | inr n3 ↦ elim (Bool-cases (make == 0x4D)) [
        | inl e ↦ rw (n1, n2, n3, e) (put-Shows key_right kb k q v)
        | inr n4 ↦ rw (n1, n2, n3, n4) v
      ]
    ]
  ]
]

-- A change of the keys alone.
keys-Shows :
    (kb : Keyboard) (k : Keys) (q : List ℕ) (shift capslock ext : Bool)
    → Shows kb k q
    → Shows
        (record kb { shift = shift; capslock = capslock; ext = ext })
        (record { shift = shift; capslock = capslock; ext = ext })
        q
keys-Shows kb k q shift capslock ext v = record {
  holds = v.holds;
  shift = refl;
  capslock = refl;
  ext = refl;
}

handle_irq-Shows :
    (sc : ℕ) (kb : Keyboard) (k : Keys) (q : List ℕ)
    → Shows kb k q
    → let (c, next) = types sc k in Shows (handle_irq sc kb) next (typed c q)
unfolding handle_irq types typed
handle_irq-Shows sc kb k q v =
    let same = keys-Shows kb k q k.shift k.capslock false v in
    let low : leb 128 (sc % 128) ≡ false = ground arith in
    elim (Bool-cases (sc == 0xE0)) [
      | inl e ↦ rw (v.shift, v.capslock, e) (keys-Shows kb k q k.shift k.capslock true v)
      | inr e1 ↦ elim (Bool-cases k.ext) [
        | inl x ↦
            let plain = keys-Shows kb k q k.shift k.capslock false v in
            elim (Bool-cases (leb 128 sc)) [
              | inl up ↦ rw (v.shift, v.capslock, v.ext, e1, x, up) plain
              | inr down ↦
                  rw (v.shift, v.capslock, v.ext, e1, x, down)
                    (extended_key-Shows (sc % 128) _ _ q plain)
            ]
        | inr x ↦ elim (Bool-cases (sc % 128 == 0x2A || sc % 128 == 0x36)) [
          | inl sh ↦
              rw (v.shift, v.capslock, v.ext, e1, x, sh)
                (keys-Shows kb k q (not (leb 128 sc)) k.capslock false v)
          | inr e2 ↦ elim (Bool-cases (leb 128 sc)) [
            | inl up ↦
                rw (v.shift, v.capslock, v.ext, e1, x, e2, up)
                  (elim (Bool-cases (sc % 128 == 0x3A)) [ inl e ↦ rw e same | inr e ↦ rw e same ])
            | inr down ↦ elim (Bool-cases (sc % 128 == 0x3A)) [
              | inl caps ↦
                  rw (v.shift, v.capslock, v.ext, e1, x, e2, down, caps)
                    (keys-Shows kb k q k.shift (not k.capslock) false v)
              | inr e3 ↦ elim (Bool-cases (char_of k.shift k.capslock (sc % 128) == 0)) [
                | inl none_typed ↦
                    rw (v.shift, v.capslock, v.ext, e1, x, e2, down, e3, low, none_typed) same
                | inr some_typed ↦
                    rw (v.shift, v.capslock, v.ext, e1, x, e2, down, e3, low, some_typed)
                      (put-Shows (char_of k.shift k.capslock (sc % 128)) _ _ q same)
              ]
            ]
          ]
        ]
      ]
    ]

-- If the ring holds a queue of characters, and Shift, Caps Lock and the prefix are the keys',
-- then for any order of interrupts and reads the reads return what they return from a queue of at
-- most 127 characters to which each scan code adds what the keys type.
pub run-expect :
    (es : List Event) (kb : Keyboard) (k : Keys) (q : List ℕ)
    → Shows kb k q
    → run es kb ≡ expect es k q
unfolding run expect read_key
run-expect [] kb k q v = refl
run-expect (irq sc ∷ es) kb k q v =
    run-expect es (handle_irq sc kb) (types sc k).1 (typed (types sc k).0 q)
      (handle_irq-Shows sc kb k q v)
run-expect (read ∷ es) kb k q v =
    let (out, holds) = try_read-Holds ring_slots kb.buffer q v.holds in
    ap₂ ◌∷◌ out (
      run-expect es (read_key kb).1 k (rest q)
        (record { holds = holds; shift = v.shift; capslock = v.capslock; ext = v.ext }))
