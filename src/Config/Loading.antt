-- ===== src/Config/Loading.antt =====
-- Loading: what `loadConfiguration` makes of a file.
use Prim.Native.String.{String}
use event_queue.Common.{
  ℕ, zero, suc, ◌+◌, ◌≡◌, refl, false, Option, none, some, List, [], ◌∷◌, length, arith, ◌≤◌,
}
use event_queue.Config.{
  LayerConfig, AccelConfig, DataFlow, ws, os, is, rs, Token, word, number, Reader, Field, height,
  width, ifmap, filter, ofmap, keyword, set_size, flow_of, scan, read_layer, load_configuration,
}

-- A line of the accelerator's part of a file.
pub data Setting : Type 0 where
  title : Setting
  sized : Field → ℕ → Setting
  flows : DataFlow → Setting

abbrev pub field_word : Field → String
field_word height = "ArrayHeight:"
field_word width = "ArrayWidth:"
field_word ifmap = "IfmapSramSz:"
field_word filter = "FilterSramSz:"
field_word ofmap = "OfmapSramSz:"

abbrev pub dataflow_word : DataFlow → String
dataflow_word ws = "ws"
dataflow_word os = "os"
dataflow_word is = "is"
dataflow_word rs = "rs"

-- The lines as they are written, in front of the rest of the file.
abbrev pub written : List Setting → List Token → List Token
written [] rest = rest
written (title ∷ settings) rest = word "[Accelerator]" ∷ written settings rest
written (sized f n ∷ settings) rest = word (field_word f) ∷ number n ∷ written settings rest
written (flows d ∷ settings) rest =
    word "Dataflow:" ∷ word (dataflow_word d) ∷ written settings rest

-- No line asks for row stationary, which the files have no word for.
abbrev pub AreLoadable : List Setting → Type 0
AreLoadable [] = Unit
AreLoadable (flows rs ∷ settings) = ⊥
AreLoadable (s ∷ settings) = AreLoadable settings

abbrev pub settle : AccelConfig → List Setting → AccelConfig
settle a [] = a
settle a (title ∷ settings) = settle a settings
settle a (sized f n ∷ settings) = settle (set_size a f n) settings
settle a (flows d ∷ settings) = settle (record a { dataflow = d }) settings

-- The part of a file on the layer, with the layer's name.
abbrev pub layer_numbers : LayerConfig → List Token
layer_numbers l =
    number l.ifmap_height
    ∷ number l.ifmap_width
    ∷ number l.filter_height
    ∷ number l.filter_width
    ∷ number l.channel
    ∷ number l.num_filter
    ∷ number l.stride
    ∷ []

abbrev pub last_size : Option ℕ → List Setting → Option ℕ
last_size n [] = n
last_size n (sized f m ∷ settings) = last_size (some m) settings
last_size n (s ∷ settings) = last_size n settings

abbrev reader : List Token → Option ℕ → Reader
reader ts n = record { tokens = ts; failed = false; current = n }

scan-written :
    (fuel : ℕ) (a : AccelConfig) (settings : List Setting) (n : Option ℕ) (t : Token)
    (rest : List Token)
    → AreLoadable settings
    → length settings ≤ fuel
    → scan (suc fuel) a (reader (written settings (word "[Network]" ∷ t ∷ rest)) n)
      ≡ some (settle a settings, reader rest (last_size n settings))
unfolding scan keyword flow_of
scan-written fuel a [] n t rest h le = refl
scan-written zero a (s ∷ settings) n t rest h le = absurd (omega arith)
scan-written (suc fuel) a (title ∷ settings) n t rest h le =
    scan-written fuel a settings n t rest h (omega arith)
scan-written (suc fuel) a (sized height m ∷ settings) n t rest h le =
    scan-written fuel (set_size a height m) settings (some m) t rest h (omega arith)
scan-written (suc fuel) a (sized width m ∷ settings) n t rest h le =
    scan-written fuel (set_size a width m) settings (some m) t rest h (omega arith)
scan-written (suc fuel) a (sized ifmap m ∷ settings) n t rest h le =
    scan-written fuel (set_size a ifmap m) settings (some m) t rest h (omega arith)
scan-written (suc fuel) a (sized filter m ∷ settings) n t rest h le =
    scan-written fuel (set_size a filter m) settings (some m) t rest h (omega arith)
scan-written (suc fuel) a (sized ofmap m ∷ settings) n t rest h le =
    scan-written fuel (set_size a ofmap m) settings (some m) t rest h (omega arith)
scan-written (suc fuel) a (flows ws ∷ settings) n t rest h le =
    scan-written fuel (record a { dataflow = ws }) settings n t rest h (omega arith)
scan-written (suc fuel) a (flows os ∷ settings) n t rest h le =
    scan-written fuel (record a { dataflow = os }) settings n t rest h (omega arith)
scan-written (suc fuel) a (flows is ∷ settings) n t rest h le =
    scan-written fuel (record a { dataflow = is }) settings n t rest h (omega arith)
scan-written (suc fuel) a (flows rs ∷ settings) n t rest h le = elim h [ ]

length-written :
    (settings : List Setting) (rest : List Token)
    → length settings + length rest ≤ length (written settings rest)
length-written [] rest = omega arith
length-written (title ∷ settings) rest = omega (arith, length-written settings rest)
length-written (sized f n ∷ settings) rest = omega (arith, length-written settings rest)
length-written (flows d ∷ settings) rest = omega (arith, length-written settings rest)

-- A file of accelerator lines, in any order and as often as they come, and of a layer with its
-- name is loaded: later lines win, what no line sets stays, and the layer is read as it is.
pub load_configuration-written :
    (a : AccelConfig) (l0 l : LayerConfig) (settings : List Setting) (name : String)
    → AreLoadable settings
    → load_configuration (written settings (word "[Network]" ∷ word name ∷ layer_numbers l)) a l0
      ≡ some (settle a settings, l)
unfolding load_configuration read_layer
load_configuration-written a l0 l settings name h =
    let ts = written settings (word "[Network]" ∷ word name ∷ layer_numbers l) in
    rw
      (scan-written (length ts) a settings none (word name) (layer_numbers l) h
        (omega (arith, length-written settings (word "[Network]" ∷ word name ∷ layer_numbers l))))
      refl

-- Where the layer's line has no name, its first number is taken for one: each entry gets the number
-- behind its own, and the stride, for which no number is left, gets the last one again.
pub load_configuration_unnamed :
    (a : AccelConfig) (l0 l : LayerConfig) (settings : List Setting)
    → AreLoadable settings
    → load_configuration (written settings (word "[Network]" ∷ layer_numbers l)) a l0
      ≡ some (
        settle a settings,
        record {
          channel = l.num_filter;
          ifmap_height = l.ifmap_width;
          ifmap_width = l.filter_height;
          num_filter = l.stride;
          filter_height = l.filter_width;
          filter_width = l.channel;
          stride = l.stride;
        },
      )
unfolding load_configuration read_layer
load_configuration_unnamed a l0 l settings h =
    let ts = written settings (word "[Network]" ∷ layer_numbers l) in
    rw
      (scan-written (length ts) a settings none (number l.ifmap_height)
        (number l.ifmap_width
          ∷ number l.filter_height
          ∷ number l.filter_width
          ∷ number l.channel
          ∷ number l.num_filter
          ∷ number l.stride
          ∷ [])
        h (omega (arith, length-written settings (word "[Network]" ∷ layer_numbers l))))
      refl
