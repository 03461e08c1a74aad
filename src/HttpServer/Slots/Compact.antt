-- ===== src/HttpServer/Slots/Compact.antt =====
-- 23_http_server/main.c: what free_conns makes of the table, and what events still point to.
use otus_c_prog.Common.{
  ℕ, zero, suc, ◌+◌, ◌-◌, ◌<◌, ◌≤◌, ◌≡◌, refl, sym, ap, ◌∙◌, ◌==◌, true, false, if◌then◌else◌, List,
  [], ◌∷◌, ◌++◌, get_or, set, length, take, drop, length-set, length-take, length-append,
  get_or-set_self, get_or-set_ne, get_or-take, inl, inr, none, some, arith, Bool-cases,
}
use mathlib.Core.List.{append_assoc, append-nil}
use mathlib.Core.Path.{subst, subst₂, ap₂}
use otus_c_prog.HttpServer.{Connection}
use otus_c_prog.HttpServer.Slots.{
  max_conn, fresh, Slots, accept_connection, is_open, free_from, free_conns,
}

-- The open connections, in their order.
abbrev pub open_conns : List Connection → List Connection
open_conns [] = []
open_conns (c ∷ cs) = let more = open_conns cs in if is_open c.fd then c ∷ more else more

take-suc :
    (xs : List Connection) (i : ℕ) (d : Connection)
    → i < length xs
    → take (suc i) xs ≡ take i xs ++ (get_or xs i d ∷ [])
take-suc [] i d h = absurd (omega arith)
take-suc (x ∷ xs) zero d h = refl
take-suc (x ∷ xs) (suc i) d h = ap (λ t. x ∷ t) (take-suc xs i d (omega arith))

drop-suc :
    (xs : List Connection) (i : ℕ) (d : Connection)
    → i < length xs
    → drop i xs ≡ get_or xs i d ∷ drop (suc i) xs
drop-suc [] i d h = absurd (omega arith)
drop-suc (x ∷ xs) zero d h = refl
drop-suc (x ∷ xs) (suc i) d h = drop-suc xs i d (omega arith)

take-set : (xs : List Connection) (j : ℕ) (v : Connection) → take j (set xs j v) ≡ take j xs
take-set [] j v = refl
take-set (x ∷ xs) zero v = refl
take-set (x ∷ xs) (suc j) v = ap (λ t. x ∷ t) (take-set xs j v)

drop-set :
    (xs : List Connection) (j k : ℕ) (v : Connection) → j < k → drop k (set xs j v) ≡ drop k xs
drop-set [] j k v h = refl
drop-set (x ∷ xs) j zero v h = absurd (omega arith)
drop-set (x ∷ xs) zero (suc k) v h = refl
drop-set (x ∷ xs) (suc j) (suc k) v h = drop-set xs j k v (omega arith)

-- The table `r` holds `kept`, and is as long as before.
pub record Holds (r : Slots) (kept : List Connection) (n : ℕ) : Type 0 where
  pub first : take r.nconns r.conns ≡ kept
  pub count : r.nconns ≡ length kept
  pub same_length : length r.conns ≡ n

open_conns-cons :
    (c : Connection) (cs : List Connection)
    → is_open c.fd ≡ true
    → open_conns (c ∷ cs) ≡ c ∷ open_conns cs
open_conns-cons c cs e = ground arith

open_conns-skip :
    (c : Connection) (cs : List Connection)
    → is_open c.fd ≡ false
    → open_conns (c ∷ cs) ≡ open_conns cs
open_conns-skip c cs e = ground arith

-- Slot `i` is kept as slot `j` of the table `moved`.
keep-Holds :
    (conns moved : List Connection) (n i j : ℕ) (c : Connection) (r : Slots)
    → take (suc j) moved ≡ take j conns ++ (c ∷ [])
    → drop (suc i) moved ≡ drop (suc i) conns
    → length moved ≡ length conns
    → drop i conns ≡ c ∷ drop (suc i) conns
    → is_open c.fd ≡ true
    → Holds r (take (j + 1) moved ++ open_conns (take n (drop (i + 1) moved))) (length moved)
    → Holds r (take j conns ++ open_conns (take (suc n) (drop i conns))) (length conns)
keep-Holds conns moved n i j c r tk dr ln dc op h =
    let rest = open_conns (take n (drop (suc i) conns)) in
    let next : (k : ℕ) → k + 1 ≡ suc k = λ k. omega arith in
    let front = ap (λ k. take k moved) (next j) ∙ tk in
    let back = ap (λ k. drop k moved) (next i) ∙ dr in
    let kept =
      ap₂ (λ a b. a ++ open_conns (take n b)) front back
      ∙ append_assoc (take j conns) (c ∷ []) rest
      ∙ ap (λ t. take j conns ++ t)
          (sym (open_conns-cons c (take n (drop (suc i) conns)) op)
            ∙ sym (ap (λ t. open_conns (take (suc n) t)) dc)) in
    subst₂ (λ k l. Holds r k l) kept ln h

skip-Holds :
    (conns : List Connection) (n i j : ℕ) (c : Connection) (r : Slots)
    → drop i conns ≡ c ∷ drop (suc i) conns
    → is_open c.fd ≡ false
    → Holds r (take j conns ++ open_conns (take n (drop (i + 1) conns))) (length conns)
    → Holds r (take j conns ++ open_conns (take (suc n) (drop i conns))) (length conns)
skip-Holds conns n i j c r dc op h =
    let next : i + 1 ≡ suc i = omega arith in
    let same =
      ap (λ k. open_conns (take n (drop k conns))) next
      ∙ sym (open_conns-skip c (take n (drop (suc i) conns)) op)
      ∙ sym (ap (λ t. open_conns (take (suc n) t)) dc) in
    subst (λ t. Holds r (take j conns ++ t) (length conns)) same h

-- From slot `i` on, with `j` slots kept, those among the next `n` that are open are kept too.
free_from-Holds :
    (conns : List Connection) (n i j : ℕ)
    → j ≤ i
    → i + n ≤ length conns
    → Holds
        (free_from conns n i j)
        (take j conns ++ open_conns (take n (drop i conns)))
        (length conns)
unfolding free_from
free_from-Holds conns zero i j h fits =
    let e = append-nil (take j conns) in
    rw e (record { first = refl; count = omega (arith, length-take j conns); same_length = refl })
free_from-Holds conns (suc n) i j h fits =
    let c = get_or conns i (fresh none) in
    let dc = drop-suc conns i (fresh none) (omega arith) in
    let moved = set conns j c in
    elim (Bool-cases (is_open c.fd)) [
      | inr closed ↦ rw closed (
          skip-Holds conns n i j c (free_from conns n (i + 1) j) dc closed
            (free_from-Holds conns n (i + 1) j (omega arith) (omega arith)))
      | inl op ↦ elim (Bool-cases (i == j)) [
        | inl here ↦
            let e : i ≡ j = ground arith in
            rw (op, here)
              (keep-Holds conns conns n i j c (free_from conns n (i + 1) (j + 1))
                (take-suc conns j (fresh none) (omega arith)
                  ∙ ap (λ k. take j conns ++ (get_or conns k (fresh none) ∷ [])) (sym e))
                refl refl dc op
                (free_from-Holds conns n (i + 1) (j + 1) (omega arith) (omega arith)))
        | inr there ↦
            let lt : j < i = ground arith in
            let ln = length-set conns j c in
            rw (op, there)
              (keep-Holds conns moved n i j c (free_from moved n (i + 1) (j + 1))
                (take-suc moved j (fresh none) (omega (arith, ln))
                  ∙ ap₂ (λ a b. a ++ (b ∷ [])) (take-set conns j c)
                      (get_or-set_self conns j c (fresh none) (omega arith)))
                (drop-set conns j (suc i) c (omega arith)) ln dc op
                (free_from-Holds moved n (i + 1) (j + 1) (omega arith) (omega (arith, ln))))
      ]
    ]

-- free_conns keeps the open connections of the table in their order, and nothing else, in its first
-- slots, where the array has room for the table; it keeps its size.
pub free_conns-Holds :
    (s : Slots)
    → s.nconns ≤ length s.conns
    → Holds (free_conns s) (open_conns (take s.nconns s.conns)) (length s.conns)
unfolding free_conns
free_conns-Holds s h = free_from-Holds s.conns s.nconns 0 0 (omega arith) (omega arith)

open_conns-last :
    (cs : List Connection) (c : Connection)
    → is_open c.fd ≡ true
    → open_conns (cs ++ (c ∷ [])) ≡ open_conns cs ++ (c ∷ [])
open_conns-last [] c e = ground arith
open_conns-last (x ∷ cs) c e = ground (arith, open_conns-last cs c e)

get_or-last : (cs : List Connection) (c d : Connection) → get_or (cs ++ (c ∷ [])) (length cs) d ≡ c
get_or-last [] c d = refl
get_or-last (x ∷ cs) c d = get_or-last cs c d

accepted :
    (client_fd : ℕ) (s : Slots)
    → s.nconns < max_conn
    → (accept_connection client_fd true true s).conns
      ≡ set s.conns s.nconns (fresh (some client_fd))
unfolding accept_connection
accepted client_fd s h = ground arith

-- In a table inside its array of at most 1024 slots, where the connection of the last slot is open
-- and exactly one other connection is closed, free_conns moves the open one a slot down, and the
-- next client whose descriptor is made non-blocking and registered gets its old slot.
pub accept_connection-stale :
    (s : Slots) (last client_fd : ℕ)
    → s.nconns ≡ suc last
    → s.nconns ≤ length s.conns
    → length s.conns ≤ max_conn
    → is_open (get_or s.conns last (fresh none)).fd ≡ true
    → length (open_conns (take s.nconns s.conns)) ≡ last
    → let after = (accept_connection client_fd true true (free_conns s)).conns in
      (get_or after (last - 1) (fresh none) ≡ get_or s.conns last (fresh none))
      × (get_or after last (fresh none) ≡ fresh (some client_fd))
accept_connection-stale s last client_fd e h size op one =
    let c = get_or s.conns last (fresh none) in
    let r = free_conns s in
    let k = free_conns-Holds s h in
    let n : r.nconns ≡ last = k.count ∙ one in
    let before = open_conns (take last s.conns) in
    let whole : open_conns (take s.nconns s.conns) ≡ before ++ (c ∷ []) =
      ap (λ m. open_conns (take m s.conns)) e
      ∙ ap open_conns (take-suc s.conns last (fresh none) (omega arith))
      ∙ open_conns-last (take last s.conns) c op in
    let size_before : length before + 1 ≡ last =
      sym (length-append before (c ∷ []))
      ∙ ap (λ (t : List Connection). length t) (sym whole)
      ∙ one in
    let moved : get_or r.conns (last - 1) (fresh none) ≡ c =
      sym (get_or-take last r.conns (last - 1) (fresh none) (omega arith))
      ∙ ap (λ t. get_or t (last - 1) (fresh none))
          (ap (λ m. take m r.conns) (sym n) ∙ k.first ∙ whole)
      ∙ ap (λ m. get_or (before ++ (c ∷ [])) m (fresh none)) (omega arith)
      ∙ get_or-last before c (fresh none) in
    let table =
      accepted client_fd r (omega arith) ∙ ap (λ m. set r.conns m (fresh (some client_fd))) n in
    (
      ap (λ t. get_or t (last - 1) (fresh none)) table
          ∙ get_or-set_ne r.conns last (last - 1) (fresh (some client_fd)) (fresh none)
              (omega arith)
          ∙ moved,
      ap (λ t. get_or t last (fresh none)) table
          ∙ get_or-set_self r.conns last (fresh (some client_fd)) (fresh none)
              (omega (arith, k.same_length)),
    )
