-- ===== src/Agents/Queue.antt =====
-- The bridge's queues: the loop that puts the latest item in ends, and drops as little as it can.
use mas_dsmb.Prelude.{
  ◌≡◌, ◌+◌, ◌-◌, ◌≤◌, ◌<◌, ◌∷◌, ◌++◌, ℕ, zero, suc, ap, inl, inr, true, false, some, List, [],
  arith, leb, Bool-cases, leb→le, leb→lt, length, length-append,
}
use mas_dsmb.Agents.Bridge.{is_full, put_latest, put, keep, agent_queue_capacity}

-- The list without its first items.
abbrev pub drop : {A : Type 0} → ℕ → List A → List A
drop zero items = items
drop (suc n) [] = []
drop (suc n) (x ∷ rest) = drop n rest

-- How many items go so that one more finds room.
abbrev pub excess : {A : Type 0} → ℕ → List A → ℕ
excess maxsize items = suc (length items) - maxsize

not_full : (maxsize size : ℕ) → size < maxsize → is_full maxsize size ≡ false
unfolding is_full
not_full maxsize size h = ground arith

is_full_of :
    (maxsize size : ℕ) → 1 ≤ maxsize → leb maxsize size ≡ true → is_full maxsize size ≡ true
unfolding is_full
is_full_of maxsize size room h = ground arith

too_few : (maxsize size : ℕ) → size < maxsize → suc size - maxsize ≡ 0
too_few maxsize size h = omega arith

one_more : (maxsize size : ℕ) → maxsize ≤ size → suc size - maxsize ≡ suc (size - maxsize)
one_more maxsize size h = omega arith

add_zero : (n : ℕ) → n + 0 ≡ n
add_zero n = omega arith

-- On a bounded queue, with more fuel than the queue has items, the loop ends: it drops the oldest
-- items, exactly as many as stand above the bound with the new one, puts the new item last, and
-- counts what it dropped.
pub put_latest-drop :
    {A : Type 0} (maxsize fuel : ℕ) (value : A) (items : List A) (dropped : ℕ)
    → 1 ≤ maxsize
    → length items < fuel
    → put_latest maxsize fuel value items dropped
      ≡ some (drop (excess maxsize items) items ++ value ∷ [], dropped + excess maxsize items)
unfolding put_latest is_full
put_latest-drop maxsize zero value items dropped room enough = absurd (omega arith)
put_latest-drop maxsize (suc fuel) value [] dropped room enough =
    rw (not_full maxsize 0 room, too_few maxsize 0 room, add_zero dropped)
put_latest-drop maxsize (suc fuel) value (oldest ∷ rest) dropped room enough =
    elim (Bool-cases (leb maxsize (suc (length rest)))) [
      | inl full ↦
          rw
            (
              is_full_of maxsize (suc (length rest)) room full,
              put_latest-drop maxsize fuel value rest (dropped + 1) room (omega arith),
              one_more maxsize (suc (length rest)) (leb→le maxsize (suc (length rest)) full),
            )
            (ap (λ n. some (drop (excess maxsize rest) rest ++ value ∷ [], n)) (omega arith))
      | inr free ↦ rw (
        not_full maxsize (suc (length rest)) (leb→lt maxsize (suc (length rest)) free),
        too_few maxsize (suc (length rest)) (leb→lt maxsize (suc (length rest)) free),
        add_zero dropped,
      )
    ]

length-drop : {A : Type 0} (n : ℕ) (items : List A) → length (drop n items) ≡ length items - n
length-drop zero items = omega arith
length-drop (suc n) [] = omega arith
length-drop (suc n) (x ∷ rest) = omega (arith, length-drop n rest)

-- The bridge gives enough fuel, and its queues stay within their capacity.
pub put-drop :
    {A : Type 0} (value : A) (items : List A) (dropped : ℕ)
    → put value items dropped ≡ (
      drop (excess agent_queue_capacity items) items ++ value ∷ [],
      dropped + excess agent_queue_capacity items,
    )
unfolding put keep
put-drop value items dropped =
    rw
      (put_latest-drop agent_queue_capacity (length items + 1) value items 0 (omega arith)
        (omega arith))
      (ap (λ n. (drop (excess agent_queue_capacity items) items ++ value ∷ [], dropped + n))
        (omega arith))

pub put-within :
    {A : Type 0} (value : A) (items : List A) (dropped : ℕ)
    → length items ≤ agent_queue_capacity
    → length ((put value items dropped).0) ≤ agent_queue_capacity
put-within value items dropped h = rw (put-drop value items dropped) (
    omega (
      arith,
      length-append (drop (excess agent_queue_capacity items) items) (value ∷ []),
      length-drop (excess agent_queue_capacity items) items,
    ))
