-- ===== src/Runner/Model.antt =====
-- lib/EQueue/CommandProcessor.cpp: `Runner::modelOp`, `getAllocDevice` and `getAllocBuffer`:
-- what an operation does to the devices, and when it ends.
use event_queue.Common.{
  ℕ, zero, suc, ◌+◌, ◌-◌, ◌*◌, Bool, true, false, Option, none, some, List, [], ◌∷◌, ◌++◌, u64,
  u64_mod, minus_one, through_int, ◌==◌, if◌then◌else◌, ◌>>=◌, ◌>>◌, product, max, check, take,
  drop, ◌||◌,
}
use event_queue.Program.{
  Program, Kind, constant, create_mem, create_dma, mem_alloc, mem_dealloc, mem_read, mem_write,
  mem_copy, launch, return_op, await, scf_for, scf_yield, generic, reshape, sub_view, splat,
  extract_element, linalg_yield, func_return, get_comp, operand, is_structure, access_lines,
  copy_lines,
}
use event_queue.Program
use event_queue.Device.{schedule_event}
use event_queue.Connection.{MemOp, read, write, new_connection}
use event_queue.Memory.{new_dma, transfer_cycles}
use event_queue.Runner.State.{Runner, memory, dma}
use event_queue.Runner.State
mod Devices
pub use Devices.*

-- `execution_time` of an operation that none of the branches treats.
unfoldable pub takes_no_time : Kind → Bool
unfolding is_structure
takes_no_time (constant _) = true
takes_no_time (mem_alloc _ _) = true
takes_no_time mem_dealloc = true
takes_no_time await = true
takes_no_time launch = true
takes_no_time return_op = true
takes_no_time reshape = true
takes_no_time linalg_yield = true
takes_no_time scf_for = true
takes_no_time scf_yield = true
takes_no_time sub_view = true
takes_no_time func_return = true
takes_no_time splat = true
takes_no_time extract_element = true
takes_no_time k = is_structure k

abbrev pub plain_end : ℕ → Kind → ℕ
plain_end time k = through_int (u64 ((if takes_no_time k then 0 else 1) + time))

module _ (p : Program) (views : ℕ) where
  abbrev kind_of : Option ℕ → Option Kind
  kind_of none = none
  kind_of (some op) = some (p.operation op).kind

  abbrev is_view : Kind → Bool
  is_view reshape = true
  is_view sub_view = true
  is_view _ = false

  -- `getAllocBuffer` on the defining operation: follow the views, at most `fuel` of them.
  unfoldable pub alloc_from : Runner → ℕ → Option ℕ → Option ℕ
  alloc_from r fuel none = none
  alloc_from r zero (some op) = none
  alloc_from r (suc fuel) (some op) =
      let source =
        alloc_from r fuel (p.definer (r.value_ids (operand (p.operation op).operands 0))) in
      if is_view (p.operation op).kind then source else some op

  abbrev alloc_shape : Kind → Option (List ℕ × ℕ)
  alloc_shape (mem_alloc shape bits) = some (shape, bits)
  alloc_shape _ = none

  unfoldable pub get_alloc_buffer : Runner → ℕ → Option ℕ
  unfolding alloc_from
  get_alloc_buffer r memref = alloc_from r views (p.definer (r.value_ids memref))

  -- The shape and the width of the buffer that a value is a view of, and the memory it is on.
  unfoldable pub get_alloc : Runner → ℕ → Option (List ℕ × ℕ × ℕ)
  unfolding get_alloc_buffer
  get_alloc r memref = do
    op ← get_alloc_buffer r memref
    (shape, bits) ← alloc_shape (p.operation op).kind
    some (shape, bits, r.value_ids (operand (p.operation op).operands 0))

  abbrev is_get_comp : Kind → Bool
  is_get_comp (get_comp _) = true
  is_get_comp _ = false

  -- `isa<equeue::GetCompOp>(buffer.getDefiningOp())`.
  abbrev pub out_of_index : ℕ → Option Bool
  out_of_index buffer = do k ← kind_of (p.definer buffer); some (is_get_comp k)

  abbrev one_later : ℕ → Runner → List ℕ → Modelled
  one_later time r tids = some (through_int (u64 (time + 1)), r, tids)

  abbrev pub finish_access : Runner → List ℕ → Option (ℕ × Runner) → Modelled
  finish_access r tids none = none
  finish_access r tids (some (end', r')) = some (through_int end', r', tids)

  -- The branches of `MemReadOp`, `MemWriteOp` and `MemCopyOp` behind the test for an index that is
  -- out of range.
  unfoldable pub model_read : ℕ → Runner → List ℕ → ℕ → ℕ → Option (List ℕ) → ℕ → Modelled
  unfolding get_alloc access_memory schedule_memory
  model_read time r tids buffer connection size bank = do
    (shape, bits, key) ← get_alloc r buffer
    let dlines = access_lines size shape
    (cycles, uid, r1) ← access_memory r key dlines read
    (done, r2) ←
        transmit r1 (is_value connection) (r.value_ids connection) time (dlines * bits) read
    if done
        then finish_access r2 (tids ++ uid ∷ []) (schedule_memory r2 key bank time cycles)
        else some (minus_one, r2, tids ++ uid ∷ [])

  unfoldable pub model_write : ℕ → Runner → List ℕ → ℕ → ℕ → Option (List ℕ) → ℕ → Modelled
  unfolding get_alloc access_memory schedule_memory
  model_write time r tids buffer connection size bank = do
    (shape, bits, key) ← get_alloc r buffer
    let dlines = access_lines size shape
    (cycles, uid, r1) ← access_memory r key dlines write
    (_, r2) ← transmit r1 (is_value connection) (r.value_ids connection) time (dlines * bits) write
    finish_access r2 (tids ++ uid ∷ []) (schedule_memory r2 key bank time cycles)

  unfoldable pub model_copy : ℕ → Runner → List ℕ → ℕ → ℕ → ℕ → ℕ → Option (List ℕ) → Modelled
  unfolding get_alloc access_memory schedule_event transfer_cycles
  model_copy time r tids src dest engine connection size = do
    (src_shape, src_bits, src_key) ← get_alloc r src
    (dest_shape, dest_bits, dest_key) ← get_alloc r dest
    check (src_bits == dest_bits)
    let dlines = copy_lines size src_shape dest_shape
    (read_time, src_uid, r1) ← access_memory r src_key dlines read
    (write_time, dest_uid, r2) ← access_memory r1 dest_key dlines write
    engine_dma ← dma_at r2 engine
    let cycles = max (max read_time write_time) (transfer_cycles engine_dma dlines)
    (_, r3) ← transmit r2 (is_value connection) connection time (src_bits * dlines) write
    d ← dma_at r3 engine
    (end', device) ← schedule_event d.device 0 time cycles false
    some (
      through_int end',
      store_component r3 engine (dma (record d { device = device })),
      tids ++ src_uid ∷ dest_uid ∷ [],
    )

  unfoldable pub model_create : ℕ → Runner → List ℕ → ℕ → Kind → Modelled
  model_create time r tids key (create_mem shape bits type banks) = do
    m ← build_memory type r.device_id banks (product shape) bits
    some (plain_end time create_dma, next_device (store_component r key (memory m)), tids)
  model_create time r tids key create_dma = some (
    plain_end time create_dma,
    next_device (store_component r key (dma (new_dma r.device_id))),
    tids,
  )
  model_create time r tids key (Program.Kind.connection bandwidth) = some (
    plain_end time create_dma,
    next_device (store_component r key (State.connection (new_connection r.device_id bandwidth))),
    tids,
  )
  model_create time r tids key k = some (plain_end time k, r, tids)

  abbrev pub model_read_op : ℕ → Runner → List ℕ → List ℕ → Option (List ℕ) → ℕ → Modelled
  model_read_op time r tids args size bank = do
    let buffer = r.value_ids (operand args 0)
    outside ← out_of_index buffer
    if outside
        then one_later time r tids
        else model_read time r tids buffer (operand args 1) size bank

  abbrev pub model_write_op : ℕ → Runner → List ℕ → List ℕ → Option (List ℕ) → ℕ → Modelled
  model_write_op time r tids args size bank = do
    let buffer = r.value_ids (operand args 1)
    outside ← out_of_index buffer
    if outside
        then one_later time r tids
        else model_write time r tids buffer (operand args 2) size bank

  abbrev pub model_copy_op : ℕ → Runner → List ℕ → List ℕ → Option (List ℕ) → Modelled
  model_copy_op time r tids args size = do
    let src = r.value_ids (operand args 1)
    let dest = r.value_ids (operand args 2)
    src_outside ← out_of_index src
    dest_outside ← out_of_index dest
    if src_outside || dest_outside
        then one_later time r tids
        else model_copy time r tids src dest (r.value_ids (operand args 3))
            (r.value_ids (operand args 4)) size

  -- The loops of `linalg::GenericOp` over its inputs or outputs: the time behind them, the runner,
  -- the devices, and the product of the numbers of lines.
  unfoldable pub model_buffers :
      ℕ → Runner → List ℕ → ℕ → MemOp → List ℕ → Option (ℕ × Runner × List ℕ × ℕ)
  unfolding get_alloc access_each
  model_buffers time r tids loops op [] = some (time, r, tids, loops)
  model_buffers time r tids loops op (v ∷ vs) = do
    (shape, bits, key) ← get_alloc r v
    m ← memory_at r key
    (time', r') ← access_each r key time (product shape) op
    model_buffers time' r' (tids ++ m.uid ∷ []) (loops * product shape) op vs

  -- The loop over the body of a `linalg::GenericOp`; `call` is `modelOp` on an operation.
  unfoldable pub model_body :
      (ℕ → Runner → List ℕ → ℕ → Modelled) → ℕ → Runner → List ℕ → ℕ → List ℕ → Modelled
  model_body call time r tids loops [] = some (time, r, tids)
  model_body call time r tids loops (op ∷ ops) = do
    (new_time, r', tids') ← call time r tids op
    model_body call (u64 (time + (new_time + u64_mod - time) * loops)) r' tids' loops ops

  abbrev pub model_generic :
      (ℕ → Runner → List ℕ → ℕ → Modelled) → ℕ → Runner → List ℕ → ℕ → ℕ → ℕ → Modelled
  model_generic call time r tids inputs outputs op = do
    let args = (p.operation op).operands
    (time1, r1, tids1, loops) ← model_buffers time r tids 1 read (take inputs args)
    (time2, r2, tids2, _) ← model_buffers time1 r1 tids1 1 write (take outputs (drop inputs args))
    (time3, r3, tids3) ←
        model_body call time2 r2 tids2 (through_int loops)
          (p.block (p.operation op).body).operations
    some (through_int time3, r3, tids3)

  abbrev model_kind :
      (ℕ → Runner → List ℕ → ℕ → Modelled) → ℕ → Runner → List ℕ → ℕ → Kind → Modelled
  model_kind call time r tids op (mem_read size bank) =
      model_read_op time r tids (p.operation op).operands size bank
  model_kind call time r tids op (mem_write size bank) =
      model_write_op time r tids (p.operation op).operands size bank
  model_kind call time r tids op (mem_copy size _ _) =
      model_copy_op time r tids (p.operation op).operands size
  model_kind call time r tids op (generic inputs outputs) =
      model_generic call time r tids inputs outputs op
  model_kind call time r tids op k =
      model_create time r tids (r.value_ids (operand (p.operation op).results 0)) k

  -- `modelOp`. The fuel bounds how deep `linalg::GenericOp`s are nested.
  unfoldable pub model_op : ℕ → ℕ → Runner → List ℕ → ℕ → Modelled
  unfolding model_read model_write model_copy model_buffers model_body model_create
  model_op zero time r tids op = none
  model_op (suc depth) time r tids op =
      model_kind (model_op depth) time r tids op (p.operation op).kind
