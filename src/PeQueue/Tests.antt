-- ===== src/PeQueue/Tests.antt =====
-- Runs of the queue on six tokens, and the theorems at them.
use charades.Prelude.{
  ◌+◌, ◌-◌, ◌++◌, if◌then◌else◌, ◌==◌, ℕ, zero, suc, ◌≤◌, ◌<◌, ◌≡◌, refl, ◌↔◌, ◌⊎◌, arith, Ptr,
  null, List, [], ◌∷◌,
}
use charades.HeapOrder.{above}
use charades.PeQueue.{
  PeQueue, top, insert, remove, update, pull_up, pull_up_loop, push_down, push_down_loop, descent,
  swap, resize, append, set_ts, has_parent, parent, left, right, has_left, has_right, smallest,
  largest, key, Holds,
}
use charades.PeQueue.Valid.{IsValid}
use charades.PeQueue.Top.{top_earliest}
use charades.PeQueue.Insert.{Inserted, insert_adds}
use charades.PeQueue.Move.{Updated, update_moves}
use charades.PeQueue.Remove.{Removed, remove_drops}
use charades.PeQueue.Disorder.{remove-IsValid_iff}

-- Tokens 1 to 6 at the times 0, 10, 1, 11, 12, 2, in this order in the array: the last token is
-- earlier than token 2, which is above token 4.
abbrev times : Ptr → ℕ
times t =
    if t == 1
    then 0
    else if t == 2
    then 10
    else if t == 3
    then 1
    else if t == 4
    then 11
    else if t == 5
    then 12
    else 2

abbrev sample : PeQueue
sample = record { capacity = 6; size = 6; heap = λ i. i + 1; index = λ t. t - 1; ts = times }

sample-ordered : (c : ℕ) → 0 < c → c < 6 → key sample (above c) ≤ key sample c
sample-ordered (suc zero) a b = omega arith
sample-ordered (suc (suc zero)) a b = omega arith
sample-ordered (suc (suc (suc zero))) a b = omega arith
sample-ordered (suc (suc (suc (suc zero)))) a b = omega arith
sample-ordered (suc (suc (suc (suc (suc zero))))) a b = omega arith
sample-ordered c a b = absurd (omega arith)

sample-IsValid : IsValid sample
sample-IsValid = record {
  ordered = sample-ordered;
  indexed = λ i h. omega arith;
  fits = omega arith;
  room = omega arith;
}

-- The times of the tokens in the order of the array.
abbrev listing : ℕ → PeQueue → List ℕ
listing zero q = []
listing (suc n) q = listing n q ++ key q n ∷ []

abbrev grown : PeQueue
grown = insert (λ i. null) sample 7 5

insert_run : listing 7 grown ≡ 0 ∷ 10 ∷ 1 ∷ 11 ∷ 12 ∷ 2 ∷ 5 ∷ []
unfolding insert resize append pull_up pull_up_loop has_parent largest parent swap
insert_run = refl

update_run : listing 6 (update sample 1 20) ≡ 1 ∷ 10 ∷ 2 ∷ 11 ∷ 12 ∷ 20 ∷ []
unfolding update set_ts push_down push_down_loop descent has_left has_right left right smallest swap
update_run = refl

-- The entry at time 2 stays below the one at time 10.
remove_run : listing 5 (remove sample 4) ≡ 0 ∷ 10 ∷ 1 ∷ 2 ∷ 12 ∷ []
unfolding remove push_down push_down_loop descent has_left has_right left right smallest swap
remove_run = refl

-- After two more updates the top of the queue is later than a token that it holds.
abbrev misled : PeQueue
misled = update (update (remove sample 4) 1 30) 3 40

misled_run : ((top misled) ≡ 2) × (misled.ts (top misled) ≡ 10) × (misled.ts 6 ≡ 2)
unfolding remove update set_ts pull_up pull_up_loop push_down push_down_loop descent has_left
    has_right left right smallest largest parent has_parent swap top
misled_run = (refl, refl, refl)

top_earliest_example :
    Holds sample (top sample) × ((t : Ptr) → Holds sample t → sample.ts (top sample) ≤ sample.ts t)
top_earliest_example = top_earliest sample sample-IsValid (omega arith)

insert_adds_example : Inserted sample 7 5 (insert (λ i. null) sample 7 5)
insert_adds_example = insert_adds (λ i. null) sample 7 5 sample-IsValid (λ h. omega arith)

update_moves_example : Updated sample 1 20 (update sample 1 20)
update_moves_example = update_moves sample 1 20 sample-IsValid (omega arith)

remove_drops_example : Removed sample 4 (remove sample 4)
remove_drops_example = remove_drops sample 4 sample-IsValid (omega arith)

remove-IsValid_iff_example :
    IsValid (remove sample 4) ↔ ((sample.index 4 ≡ 0) ⊎ (key sample 1 ≤ key sample 5))
remove-IsValid_iff_example = remove-IsValid_iff sample 4 sample-IsValid (omega arith)
