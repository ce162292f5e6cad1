-- ===== src/Config/Examples.antt =====
-- The files of test/config, and what is loaded from them.
use Prim.Native.String.{String}
use event_queue.Common.{◌≡◌, refl, some, Option, List, [], ◌∷◌}
use event_queue.Config.{
  LayerConfig, AccelConfig, default_layer, default_accel, os, Token, word, height, width, ifmap,
  filter, ofmap, keyword, flow_of, scan, read_layer, load_configuration, linalg, generator_named,
  equeue_generator,
}
use event_queue.Config.Loading.{
  Setting, title, sized, flows, written, layer_numbers, load_configuration-written,
  load_configuration_unnamed,
}

abbrev lines : List Setting
lines =
    title
    ∷ sized height 5
    ∷ sized width 5
    ∷ sized ifmap 108
    ∷ sized filter 108
    ∷ sized ofmap 108
    ∷ flows os
    ∷ []

abbrev conv : LayerConfig
conv = record {
  channel = 3;
  ifmap_height = 7;
  ifmap_width = 7;
  num_filter = 5;
  filter_height = 3;
  filter_width = 3;
  stride = 1;
}

abbrev small : AccelConfig
small = record default_accel { array_height = 5; array_width = 5 }

program : Unit {0}
unfolding keyword flow_of scan read_layer load_configuration generator_named equeue_generator
program = tt

abbrev files : String → Option (List Token)
files name = some (written lines (word "[Network]" ∷ word "Conv5" ∷ layer_numbers conv))

equeue_generator-linalg :
    equeue_generator files "linalg" "scale_sim.cfg" ≡ some (some linalg, small, conv)
unfolding program
equeue_generator-linalg = refl

load_configuration-written_example :
    load_configuration
      (written lines (word "[Network]" ∷ word "Conv5" ∷ layer_numbers conv))
      default_accel
      default_layer
    ≡ some (small, conv)
load_configuration-written_example =
    load_configuration-written default_accel default_layer conv lines "Conv5" tt

load_configuration_unnamed_example :
    load_configuration
      (written lines (word "[Network]" ∷ layer_numbers conv))
      default_accel
      default_layer
    ≡ some (
      small,
      record {
        channel = 5;
        ifmap_height = 7;
        ifmap_width = 3;
        num_filter = 1;
        filter_height = 3;
        filter_width = 3;
        stride = 1;
      },
    )
load_configuration_unnamed_example =
    load_configuration_unnamed default_accel default_layer conv lines tt
