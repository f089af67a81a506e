-- ===== src/Sched/Ring.antt =====
-- The rings of the ready queues: what the link updates of QueuePushBack and QueueRemove do to the
-- list of threads that a ring holds.
use micro_nt.Base.{ℕ, ◌≡◌, sym, ◌∙◌, ◌≢◌, List, [], ◌∷◌, ◌++◌, arith}
use Prim.{Unit}
use micro_nt.Sched.{Links, insert_before, queue_remove}

-- The node is not in the list.
unfoldable pub Off : ℕ → List ℕ → Type 0
Off y [] = Unit
Off y (x ∷ xs) = (y ≢ x) × Off y xs

-- No node stands twice in the list.
unfoldable pub Distinct : List ℕ → Type 0
Distinct [] = Unit
Distinct (x ∷ xs) = Off x xs × Distinct xs

-- The links lead from `a` over the list to `b` and back.
unfoldable pub Chain : Links → ℕ → List ℕ → ℕ → Type 0
Chain l a [] b = (l.next a ≡ b) × (l.prev b ≡ a)
Chain l a (x ∷ xs) b = (l.next a ≡ x) × (l.prev x ≡ a) × Chain l x xs b

-- The links of two maps agree away from two places.
unfoldable pub Agrees : (ℕ → ℕ) → (ℕ → ℕ) → ℕ → ℕ → Type 0
Agrees f g u v = (y : ℕ) → y ≢ u → y ≢ v → f y ≡ g y

-- A change of links away from the nodes.
pub Chain-Agrees :
    (l m : Links) (u v w z a : ℕ) (xs : List ℕ) (b : ℕ)
    → Agrees m.next l.next u v
    → Agrees m.prev l.prev w z
    → a ≢ u
    → a ≢ v
    → b ≢ w
    → b ≢ z
    → Off u xs
    → Off v xs
    → Off w xs
    → Off z xs
    → Chain l a xs b
    → Chain m a xs b
unfolding Chain Off Agrees
Chain-Agrees l m u v w z a [] b n p au av bw bz ou ov ow oz (f, g) = (n a au av ∙ f, p b bw bz ∙ g)
Chain-Agrees l m u v w z a (x ∷ xs) b n p au av bw bz (xu, ou) (xv, ov) (xw, ow) (xz, oz)
      (f, g, r) =
    (
      n a au av ∙ f,
      p x (λ e. xw (sym e)) (λ e. xz (sym e)) ∙ g,
      Chain-Agrees l m u v w z x xs b n p (λ e. xu (sym e)) (λ e. xv (sym e)) bw bz ou ov ow oz r,
    )

-- The last node of a chain is the one that its end leads back to.
pub Chain-last :
    (l : Links) (y a : ℕ) (xs : List ℕ) (b : ℕ) → Chain l a xs b → y ≢ a → Off y xs → y ≢ l.prev b
unfolding Chain Off
Chain-last l y a [] b (f, g) ya off = λ e. ya (e ∙ g)
Chain-last l y a (x ∷ xs) b (f, g, r) ya (yx, off) = Chain-last l y x xs b r yx off

-- QueuePushBack puts the thread at the end.
pub Chain-insert_before :
    (l : Links) (t a : ℕ) (xs : List ℕ) (b : ℕ)
    → Chain l a xs b
    → t ≢ a
    → t ≢ b
    → Off t xs
    → Off a xs
    → Off b xs
    → Distinct xs
    → Chain (insert_before t b l) a (xs ++ t ∷ []) b
unfolding Chain Off Distinct insert_before
Chain-insert_before l t a [] b (f, g) ta tb ot oa ob d =
    (ground (arith, f, g), ground (arith, f, g), (ground (arith, f, g), ground (arith, f, g)))
Chain-insert_before l t a (x ∷ xs) b (f, g, r) ta tb (tx, ot) (ax, oa) (bx, ob) (ox, d) =
    let not_last = Chain-last l a x xs b r ax oa in
    (
      ground (arith, f, not_last),
      ground (arith, g),
      Chain-insert_before l t x xs b r tx tb ot ox ob d,
    )

-- QueuePop takes the first thread away.
pub Chain-queue_remove :
    (l : Links) (t a : ℕ) (xs : List ℕ) (b : ℕ)
    → Chain l a (t ∷ xs) b
    → a ≢ 0
    → b ≢ 0
    → t ≢ a
    → t ≢ b
    → Off 0 xs
    → Off t xs
    → Off a xs
    → Off b xs
    → Distinct xs
    → Chain (queue_remove t l) a xs b
unfolding Chain Off Distinct queue_remove Agrees
Chain-queue_remove l t a [] b (f, g, (h, i)) na nb ta tb oz ot oa ob d =
    (ground arith, ground arith)
Chain-queue_remove l t a (x ∷ xs) b (f, g, (h, i, r)) na nb ta tb (zx, oz) (tx, ot) (ax, oa)
      (bx, ob) (ox, d) =
    (
      ground arith,
      ground arith,
      Chain-Agrees l (queue_remove t l) t a t x x xs b (λ y yt ya. ground arith)
          (λ y yt yx. ground arith) (λ e. tx (sym e)) (λ e. ax (sym e)) (λ e. tb (sym e)) bx ot oa
          ot ox r,
    )
