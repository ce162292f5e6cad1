-- ===== src/Runner/Ids/Examples.antt =====
-- A component of two parts, and the arguments of a launch.
use event_queue.Common.{
  ℕ, zero, suc, ◌≡◌, refl, false, none, some, Option, List, [], ◌∷◌, if◌then◌else◌, ◌==◌, arith,
}
use event_queue.Program.{Program, Kind, Operation, create_comp, get_comp, other}
use event_queue.Runner.Ids.{
  Ids, no_ids, name_operands, link_arguments, link_iterations, link_results, insert_own,
  visit_operation, enter_region,
}
use event_queue.Runner.Ids.Links.{AreLinked, KeepsIds, link_arguments-AreLinked}
use event_queue.Runner.Ids.Components.{create_get}

abbrev an_operation : Kind → List ℕ → List ℕ → Operation
an_operation k args results = record {
  kind = k;
  operands = args;
  results = results;
  parent = 0;
  body = 0;
}

abbrev parts : ℕ → Operation
parts zero = an_operation (create_comp ("proc" ∷ "mem" ∷ [])) (11 ∷ 12 ∷ []) (13 ∷ [])
parts (suc zero) = an_operation (get_comp "mem") (13 ∷ []) (14 ∷ [])
parts (suc (suc n)) = an_operation (other "none") [] []

abbrev sample : Program
sample = record {
  operation = parts;
  block = λ b. record { operations = []; arguments = []; parent_op = 9 };
  definer = λ v. none;
  is_signal = λ v. false;
}

abbrev two : Ids
two = record no_ids {
  value_ids = λ v. if v == 11 then some 11 else (if v == 12 then some 12 else none);
}

program : Unit {0}
unfolding name_operands link_arguments link_iterations link_results insert_own visit_operation
    enter_region
program = tt

abbrev known : Option Ids → Ids
known none = no_ids
known (some s) = s

abbrev made : Ids
unfolding name_operands link_results insert_own visit_operation
made = known (visit_operation sample two 0)

abbrev found : Ids
unfolding made name_operands link_results insert_own visit_operation
found = known (visit_operation sample made 1)

create_get_example : found.value_ids 14 ≡ some 12
unfolding program made found
create_get_example =
    create_get sample two made found 0 1 13 14 12 12 "mem" ("proc" ∷ "mem" ∷ []) (11 ∷ 12 ∷ []) refl
      refl refl refl refl refl ((11, refl), ((12, refl), tt)) refl refl refl refl refl
      (λ e. omega arith) refl refl

link_arguments-AreLinked_example :
    AreLinked two (link_arguments two (21 ∷ 22 ∷ []) (12 ∷ 11 ∷ [])) (21 ∷ 22 ∷ []) (12 ∷ 11 ∷ [])
    × KeepsIds two (link_arguments two (21 ∷ 22 ∷ []) (12 ∷ 11 ∷ []))
link_arguments-AreLinked_example =
    link_arguments-AreLinked two (21 ∷ 22 ∷ []) (12 ∷ 11 ∷ [])
      (refl, ((λ e. omega arith), tt), (refl, tt, tt)) ((12, refl), ((11, refl), tt))
