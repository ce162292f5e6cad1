-- ===== src/Names/Examples.antt =====
-- The names "pe_array" and "dma", in short.
use event_queue.Common.{◌≡◌, refl, [], ◌∷◌, ◌++◌, arith}
use event_queue.Names.{Name, split, trancate, name_attr, get_comp_str_list}
use event_queue.Names.RoundTrip.{nonempty, terminated, split-terminated, name_attr_read_back}

abbrev pe : Name
pe = b'p' ∷ b'e' ∷ []

abbrev dma : Name
dma = b'd' ∷ b'm' ∷ b'a' ∷ []

-- "pe@@dma".
trancated : trancate ((pe ++ b'@' ∷ b'@' ∷ dma) ∷ []) ≡ (pe ∷ dma ∷ []) ∷ []
unfolding trancate
trancated = refl

-- "1][:" with the delimiter of indices.
indices : split (b'1' ∷ b']' ∷ b'[' ∷ b':' ∷ []) (b']' ∷ b'[' ∷ []) ≡ (b'1' ∷ []) ∷ (b':' ∷ []) ∷ []
unfolding split
indices = refl

split-terminated_example :
    split (terminated b'@' (pe ∷ [] ∷ []) ++ dma) (b'@' ∷ [])
    ≡ nonempty ((pe ∷ [] ∷ []) ++ dma ∷ [])
split-terminated_example = split-terminated b'@' (pe ∷ [] ∷ []) dma (omega arith) (omega arith)

name_attr_read_back_example :
    (split (name_attr (pe ∷ dma ∷ [])) (b' ' ∷ []) ≡ pe ∷ dma ∷ [])
    × (get_comp_str_list (name_attr (pe ∷ dma ∷ [])) ≡ pe ∷ dma ∷ [])
name_attr_read_back_example =
    name_attr_read_back (pe ∷ dma ∷ [])
      ((λ e. cc, (refl, (refl, tt))), ((λ e. cc, (refl, (refl, (refl, tt)))), tt))
