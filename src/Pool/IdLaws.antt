-- ===== src/Pool/IdLaws.antt =====
-- The connections of a pool are numbered from 1 in the order in which they were added.
use libattachsql.Prelude.{
  ℕ, ◌+◌, ◌≡◌, refl, arith, Bool, true, false, Option, none, some, List, [], ◌∷◌, ◌++◌, length, map,
  sym, ap, ◌∙◌,
}
use mathlib.Core.List.{append_assoc, append-nil, map-append}
use mathlib.Core.Path.{subst}
use libattachsql.Net.Connect.{Connect}
use libattachsql.Pool.Connections.{Pool, pooled, pool_add_connection}

-- The connections from the number `n` on have their numbers, the pool and its callback.
pub data Numbered (callback : Bool) : ℕ → List Connect → Type 0 where
  none_left : {n : ℕ} → Numbered callback n []
  numbered :
      {n : ℕ} {c : Connect} {cs : List Connect}
      → c.connection_id ≡ n
      → c.has_pool ≡ true
      → c.has_callback ≡ callback
      → Numbered callback (n + 1) cs
      → Numbered callback n (c ∷ cs)

abbrev pub IsPool : Option Pool → Type 0
IsPool none = Unit
IsPool (some p) = Numbered p.has_callback_fn 1 p.connections

-- Adding connections, each with the answer of its allocation.
abbrev pub add_all : Bool → List (Bool × Option Connect) → Option Pool → Option Pool
add_all made [] p = p
add_all made ((room, c) ∷ more) p = add_all made more (pool_add_connection made room none p c).0

-- The connections that are to be added: those that are not NULL and for which there is memory.
abbrev pub offered : List (Bool × Option Connect) → List Connect
offered [] = []
offered ((true, some c) ∷ more) = c ∷ offered more
offered ((false, c) ∷ more) = offered more
offered ((true, none) ∷ more) = offered more

-- A connection but for its number and what it knows of its pool.
abbrev pub apart : Connect → Connect
apart c = record c { has_pool = false; has_callback = false; connection_id = 0 }

Numbered-append :
    {callback : Bool} {n : ℕ} {cs : List Connect} (c : Connect)
    → Numbered callback n cs
    → c.connection_id ≡ n + length cs
    → c.has_pool ≡ true
    → c.has_callback ≡ callback
    → Numbered callback n (cs ++ (c ∷ []))
Numbered-append c none_left h k l = numbered (omega (arith, h)) k l none_left
Numbered-append c (numbered i p f more) h k l =
    numbered i p f (Numbered-append c more (omega (arith, h)) k l)

-- The pool that adding gives has its numbers, and these connections.
abbrev pub Has : List Connect → Option Pool → Type 0
Has cs none = ⊥
Has cs (some q) = Numbered q.has_callback_fn 1 q.connections × (map apart q.connections ≡ cs)

one_more :
    (p : Pool) (c : Connect) (cs : List Connect)
    → map apart (p.connections ++ (pooled p c ∷ [])) ++ map apart cs
      ≡ map apart p.connections ++ map apart (c ∷ cs)
one_more p c cs =
    ap (λ l. l ++ map apart cs) (map-append apart p.connections (pooled p c ∷ []))
    ∙ append_assoc (map apart p.connections) (apart c ∷ []) (map apart cs)

-- To a pool whose connections are numbered from 1, as those of an empty one are, any connections are
-- added one after the other, NULL among them, whatever their allocations answer. The pool then has its
-- former connections, followed by those that were not NULL and for which there was memory, in the
-- order in which they were added. They are numbered from 1 in this order, and know that they have the
-- pool and whether it has a callback; nothing else of a connection is changed.
pub add_all-IsPool :
    (made : Bool) (cs : List (Bool × Option Connect)) (p : Pool)
    → IsPool (some p)
    → Has (map apart p.connections ++ map apart (offered cs)) (add_all made cs (some p))
unfolding pool_add_connection
add_all-IsPool made [] p h = (h, sym (append-nil (map apart p.connections)))
add_all-IsPool made ((false, none) ∷ more) p h = add_all-IsPool made more p h
add_all-IsPool made ((false, some c) ∷ more) p h = add_all-IsPool made more p h
add_all-IsPool made ((true, none) ∷ more) p h = add_all-IsPool made more p h
add_all-IsPool made ((true, some c) ∷ more) p h =
    let q : Pool = record p { connections = p.connections ++ (pooled p c ∷ []) } in
    subst (λ (l : List Connect). Has l (add_all made more (some q))) (one_more p c (offered more))
      (add_all-IsPool made more q (Numbered-append (pooled p c) h (omega arith) refl refl))
