-- ===== src/Transforms/Copying/Examples.antt =====
-- A copy of the buffer 1 to the buffer 2, whose contents are numbers.
use event_queue.Common.{
  ℕ, ◌≡◌, refl, some, none, List, [], ◌∷◌, Bool, false, ◌==◌, if◌then◌else◌, arith,
}
use event_queue.Transforms.Copying.{
  MemCopy, Access, read, write, CopyLaunch, copy_to_launch, get_read_op, merge_launch,
}
use event_queue.Transforms.Copying.Effects.{
  Contents, execute_all, copy_to_launch_idle, merge_launch_elsewhere,
}

abbrev sample : MemCopy
sample = record { start = 8; src_buffer = 1; dest_buffer = 2; dma = 9; size = []; done_users = [] }

abbrev launched : CopyLaunch
launched = record {
  signal = 8;
  device = 9;
  operands = 1 ∷ 2 ∷ [];
  body = read 100 1 [] ∷ write 100 1 [] ∷ [];
}

copy_to_launch-sample : copy_to_launch 100 sample ≡ some launched
unfolding copy_to_launch
copy_to_launch-sample = refl

-- Its signal is awaited.
copy_to_launch-awaited : copy_to_launch 100 (record sample { done_users = 5 ∷ [] }) ≡ none
unfolding copy_to_launch
copy_to_launch-awaited = refl

abbrev part : List ℕ → ℕ → ℕ
part size c = c

abbrev put : List ℕ → ℕ → ℕ → ℕ
put size t c = t

abbrev here : ℕ → ℕ
here v = v

abbrev memory : Contents ℕ
memory = record { buffers = λ b. b; tensors = λ v. 0 }

copy_to_launch_idle_example : (execute_all part put here memory launched.body).buffers 2 ≡ 2
copy_to_launch_idle_example =
    copy_to_launch_idle part put here (λ size c. refl) 100 sample launched memory 2
      copy_to_launch-sample

abbrev adding : List Access
adding = read 10 3 [] ∷ write 10 4 [] ∷ []

abbrev always_local : ℕ → Bool
always_local v = false

abbrev reads_here : ℕ → List ℕ
reads_here v = if v == 3 then 10 ∷ [] else []

abbrev merged : List Access
merged = read 100 1 [] ∷ read 10 3 [] ∷ write 10 4 [] ∷ write 100 1 [] ∷ []

merge_launch-sample :
    merge_launch 100 ((3, 5) ∷ (1, 1) ∷ []) always_local reads_here here sample adding ≡ some merged
unfolding merge_launch get_read_op
merge_launch-sample = refl

-- A read of another value that stands for the source is used again.
merge_launch-shared :
    merge_launch 100 ((3, 1) ∷ []) always_local reads_here here sample adding
    ≡ some (read 10 3 [] ∷ write 10 4 [] ∷ write 10 1 [] ∷ [])
unfolding merge_launch get_read_op
merge_launch-shared = refl

merge_launch_elsewhere_example :
    (execute_all part put here memory merged).buffers 2
    ≡ (execute_all part put here memory adding).buffers 2
merge_launch_elsewhere_example =
    merge_launch_elsewhere part put here 100 ((3, 5) ∷ (1, 1) ∷ []) always_local reads_here here
      sample adding merged memory 2 (tt, ((λ e. absurd (omega arith)), tt))
      (λ e. absurd (omega arith)) merge_launch-sample
