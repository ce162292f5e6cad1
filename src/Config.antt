-- ===== src/Config.antt =====
-- include/Generator/EQueueGenerator.h: the configurations of the generators and
-- `MLIRGenImpl::loadConfiguration`. A file is the list of its words; `none` is a place that the
-- source marks unreachable, or the use of a number that was never read.
pub mod Loading
mod Examples
use Prim.Native.String.{String}
use text.Mathlib.Text.{◌==◌ as str_eq}
use event_queue.Common.{
  ℕ, zero, suc, ◌≡◌, Bool, true, false, Option, none, some, List, [], ◌∷◌, ◌>>=◌, if◌then◌else◌,
  length,
}

pub record LayerConfig : Type 0 where
  pub channel : ℕ
  pub ifmap_height : ℕ
  pub ifmap_width : ℕ
  pub num_filter : ℕ
  pub filter_height : ℕ
  pub filter_width : ℕ
  pub stride : ℕ

abbrev pub default_layer : LayerConfig
default_layer = record {
  channel = 6;
  ifmap_height = 10;
  ifmap_width = 10;
  num_filter = 10;
  filter_height = 3;
  filter_width = 3;
  stride = 1;
}

pub data DataFlow : Type 0 where
  ws os is rs : DataFlow

pub record AccelConfig : Type 0 where
  pub array_height : ℕ
  pub array_width : ℕ
  pub ifmap_sram : ℕ
  pub filter_sram : ℕ
  pub ofmap_sram : ℕ
  pub dataflow : DataFlow

abbrev pub default_accel : AccelConfig
default_accel = record {
  array_height = 12;
  array_width = 14;
  ifmap_sram = 108;
  filter_sram = 108;
  ofmap_sram = 108;
  dataflow = os;
}

-- `getStringDataflow`.
unfoldable pub get_string_dataflow : DataFlow → Option String
get_string_dataflow ws = some "Weight Stationary"
get_string_dataflow os = some "Output Stationary"
get_string_dataflow is = some "Input Stationary"
get_string_dataflow rs = none

-- A word of the file: a number, or anything else.
pub data Token : Type 0 where
  word : String → Token
  number : ℕ → Token

-- The stream, with its fail bit, and the variable `number`, which has no value at first.
pub record Reader : Type 0 where
  pub tokens : List Token
  pub failed : Bool
  pub current : Option ℕ

abbrev pub open_tokens : List Token → Reader
open_tokens ts = record { tokens = ts; failed = false; current = none }

abbrev next_number : Reader → List Token → Reader
next_number r [] = record r { failed = true }
next_number r (number n ∷ ts) = record r { tokens = ts; current = some n }
next_number r (word w ∷ ts) = record r { failed = true; current = some 0 }

-- `instream >> number`: a word that is no number leaves 0, and the end of the file leaves the
-- number as it is; both set the fail bit.
abbrev pub read_number : Reader → Reader
read_number r = if r.failed then r else next_number r r.tokens

abbrev assigned_from : Reader → Option ℕ → Option (ℕ × Reader)
assigned_from r none = none
assigned_from r (some n) = some (n, r)

-- The number that is assigned behind reading it.
abbrev pub assigned : Reader → Option (ℕ × Reader)
assigned r = let r' = read_number r in assigned_from r' r'.current

abbrev next_word : Reader → List Token → Option Token × Reader
next_word r [] = (none, record r { failed = true })
next_word r (t ∷ ts) = (some t, record r { tokens = ts })

-- `instream >> instr`.
abbrev pub read_word : Reader → Option Token × Reader
read_word r = if r.failed then (none, r) else next_word r r.tokens

-- The words that the loop tells apart.
pub data Field : Type 0 where
  height width ifmap filter ofmap : Field

pub data Keyword : Type 0 where
  heading network flow unknown : Keyword
  size : Field → Keyword

unfoldable pub keyword : String → Keyword
keyword w =
    if str_eq w "[Accelerator]"
    then heading
    else (if str_eq w "ArrayHeight:"
        then size height
        else (if str_eq w "ArrayWidth:"
            then size width
            else (if str_eq w "IfmapSramSz:"
                then size ifmap
                else (if str_eq w "FilterSramSz:"
                    then size filter
                    else (if str_eq w "OfmapSramSz:"
                        then size ofmap
                        else (if str_eq w "Dataflow:"
                            then flow
                            else (if str_eq w "[Network]" then network else unknown)))))))

abbrev pub set_size : AccelConfig → Field → ℕ → AccelConfig
set_size a height n = record a { array_height = n }
set_size a width n = record a { array_width = n }
set_size a ifmap n = record a { ifmap_sram = n }
set_size a filter n = record a { filter_sram = n }
set_size a ofmap n = record a { ofmap_sram = n }

unfoldable pub flow_of : String → Option DataFlow
flow_of w =
    if str_eq w "ws"
    then some ws
    else (if str_eq w "os" then some os else (if str_eq w "is" then some is else none))

abbrev pub flow_word : Option Token → Option DataFlow
flow_word (some (word w)) = flow_of w
flow_word _ = none

-- The loop over the accelerator's lines. The fuel bounds the number of its turns.
unfoldable pub scan : ℕ → AccelConfig → Reader → Option (AccelConfig × Reader)
unfolding keyword flow_of
scan zero a r = none
scan (suc fuel) a r =
    let (w, r') = read_word r in
    elim w [
      | none ↦ some (a, r')
      | some (number n) ↦ none
      | some (word w) ↦ elim (keyword w) [
        | heading ↦ scan fuel a r'
        | size f ↦ elim (assigned r') [
          | none ↦ none
          | some (n, r'') ↦ scan fuel (set_size a f n) r''
        ]
        | flow ↦ elim (flow_word (read_word r').0) [
          | none ↦ none
          | some d ↦ scan fuel (record a { dataflow = d }) (read_word r').1
        ]
        | network ↦ some (a, (read_word r').1)
        | unknown ↦ none
      ]
    ]

unfoldable pub read_layer : LayerConfig → Reader → Option LayerConfig
read_layer l r = do
  (n1, r1) ← assigned r
  (n2, r2) ← assigned r1
  (n3, r3) ← assigned r2
  (n4, r4) ← assigned r3
  (n5, r5) ← assigned r4
  (n6, r6) ← assigned r5
  (n7, r7) ← assigned r6
  some (record l {
    ifmap_height = n1;
    ifmap_width = n2;
    filter_height = n3;
    filter_width = n4;
    channel = n5;
    num_filter = n6;
    stride = n7;
  })

unfoldable pub load_configuration :
    List Token → AccelConfig → LayerConfig → Option (AccelConfig × LayerConfig)
unfolding scan read_layer
load_configuration ts a l = do
  (a', r) ← scan (suc (length ts)) a (open_tokens ts)
  l' ← read_layer l r
  some (a', l')

-- The generators that `equeueGenerator` chooses from.
pub data Generator : Type 0 where
  systolic_array linalg fir_single fir16 fir16_limit fir_multi : Generator

-- `none` is the message that there is no such implementation.
unfoldable pub generator_named : String → Option Generator
generator_named gen =
    if str_eq gen "systolicArray"
    then some systolic_array
    else (if str_eq gen "linalg"
        then some linalg
        else (if str_eq gen "firSingle"
            then some fir_single
            else (if str_eq gen "fir16"
                then some fir16
                else (if str_eq gen "fir16Limit"
                    then some fir16_limit
                    else (if str_eq gen "firMulti" then some fir_multi else none)))))

-- The file of a name, or nothing where it cannot be opened.
abbrev pub load_file :
    Option (List Token) → AccelConfig → LayerConfig → Option (AccelConfig × LayerConfig)
load_file none a l = some (a, l)
load_file (some ts) a l = load_configuration ts a l

-- `equeueGenerator`: the generator that runs, if any, and what it is configured with. The files are
-- given by a function.
unfoldable pub equeue_generator :
    (String → Option (List Token))
    → String
    → String
    → Option (Option Generator × AccelConfig × LayerConfig)
unfolding load_configuration generator_named
equeue_generator files gen config = do
  (a, l) ←
      if str_eq config ""
      then some (default_accel, default_layer)
      else load_file (files config) default_accel default_layer
  some (generator_named gen, a, l)
