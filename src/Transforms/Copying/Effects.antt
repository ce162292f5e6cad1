-- ===== src/Transforms/Copying/Effects.antt =====
-- What the accesses do to the buffers.
use event_queue.Common.{
  ℕ, ◌≡◌, ◌≢◌, refl, sym, ap, subst, ◌∙◌, List, [], ◌∷◌, ◌++◌, Option, none, some, update, ◌==◌,
  Bool-cases, >>=-elim, some_injective, arith, All, ==-refl, ==-of-ne, check, Bool, inl, inr,
}
use event_queue.Names.{is_empty}
use event_queue.Transforms.Copying.{
  MemCopy, Access, read, write, CopyLaunch, copy_to_launch, get_read_op, merged_body, merge_launch,
}

-- The contents of the buffers, and of the tensors that are read.
pub record Contents (C : Type 0) : Type 0 where
  pub buffers : ℕ → C
  pub tensors : ℕ → C

-- `part size c` is what a read of that size finds, and `put size t c` what a write of `t` leaves;
-- `buffer_of` is the buffer that a value stands for.
module _ {C : Type 0} (part : List ℕ → C → C) (put : List ℕ → C → C → C) (buffer_of : ℕ → ℕ) where
  abbrev pub execute : Contents C → Access → Contents C
  execute m (read r b size) = record m {
    tensors = update m.tensors r (part size (m.buffers (buffer_of b)));
  }
  execute m (write v b size) = record m {
    buffers = update m.buffers (buffer_of b) (put size (m.tensors v) (m.buffers (buffer_of b)));
  }

  abbrev pub execute_all : Contents C → List Access → Contents C
  execute_all m [] = m
  execute_all m (a ∷ accesses) = execute_all (execute m a) accesses

  read_write-idle :
      ((size : List ℕ) (c : C) → put size (part size c) c ≡ c)
      → (fresh v : ℕ) (size : List ℕ) (m : Contents C) (b : ℕ)
      → (execute_all m (read fresh v size ∷ write fresh v size ∷ [])).buffers b ≡ m.buffers b
  read_write-idle law fresh v size m b = elim (Bool-cases (buffer_of v == b)) [
    | inl e ↦
        let at_v : buffer_of v ≡ b = ground arith in
        rw (e, ==-refl fresh) (law size (m.buffers (buffer_of v)) ∙ ap m.buffers at_v)
    | inr e ↦ rw e refl
  ]

  -- The launch that a memcpy becomes leaves every buffer, the destination too, as it was, where writing
  -- back what has been read changes nothing.
  pub copy_to_launch_idle :
      ((size : List ℕ) (c : C) → put size (part size c) c ≡ c)
      → (fresh : ℕ) (c : MemCopy) (l : CopyLaunch) (m : Contents C) (b : ℕ)
      → copy_to_launch fresh c ≡ some l
      → (execute_all m l.body).buffers b ≡ m.buffers b
  unfolding copy_to_launch
  copy_to_launch_idle law fresh c l m b e = >>=-elim (check (is_empty c.done_users)) _ e λ u p q.
      subst (λ (made : CopyLaunch). (execute_all m made.body).buffers b ≡ m.buffers b)
        (some_injective q) (read_write-idle law fresh c.src_buffer c.size m b)

  execute_all-append :
      (m : Contents C) (xs ys : List Access)
      → execute_all m (xs ++ ys) ≡ execute_all (execute_all m xs) ys
  execute_all-append m [] ys = refl
  execute_all-append m (x ∷ xs) ys = execute_all-append (execute m x) xs ys

  -- The access does not write that tensor.
  abbrev pub Spares : ℕ → Access → Type 0
  Spares fresh (read r b size) = Unit
  Spares fresh (write v b size) = v ≢ fresh

  -- Alike but for one tensor.
  abbrev pub Alike : ℕ → Contents C → Contents C → Type 0
  Alike fresh m n =
      ((b : ℕ) → m.buffers b ≡ n.buffers b) × ((v : ℕ) → v ≢ fresh → m.tensors v ≡ n.tensors v)

  update_alike :
      (f g : ℕ → C) (k : ℕ) (x y : C) (j : ℕ) → x ≡ y → f j ≡ g j → update f k x j ≡ update g k y j
  update_alike f g k x y j p q = elim (Bool-cases (k == j)) [ inl e ↦ rw e p | inr e ↦ rw e q ]

  execute-Alike :
      (fresh : ℕ) (m n : Contents C) (a : Access)
      → Spares fresh a
      → Alike fresh m n
      → Alike fresh (execute m a) (execute n a)
  execute-Alike fresh m n (read r b size) h s = (
    s.0,
    (λ v ne.
        update_alike m.tensors n.tensors r _ _ v (ap (part size) (s.0 (buffer_of b))) (s.1 v ne)),
  )
  execute-Alike fresh m n (write v b size) h s = (
    (λ d.
        update_alike m.buffers n.buffers (buffer_of b) _ _ d
          (ap (λ (t : C). put size t (m.buffers (buffer_of b))) (s.1 v h)
            ∙ ap (put size (n.tensors v)) (s.0 (buffer_of b)))
          (s.0 d)),
    s.1,
  )

  execute_all-Alike :
      (fresh : ℕ) (m n : Contents C) (body : List Access)
      → All (Spares fresh) body
      → Alike fresh m n
      → Alike fresh (execute_all m body) (execute_all n body)
  execute_all-Alike fresh m n [] h s = s
  execute_all-Alike fresh m n (a ∷ body) h s =
      execute_all-Alike fresh (execute m a) (execute n a) body h.1 (execute-Alike fresh m n a h.0 s)

  write_elsewhere :
      (m : Contents C) (v b d : ℕ) (size : List ℕ)
      → d ≢ buffer_of b
      → (execute m (write v b size)).buffers d ≡ m.buffers d
  write_elsewhere m v b d size ne = rw (==-of-ne (buffer_of b) d (λ e. ne (sym e))) refl

  merged_body-elsewhere :
      (fresh : ℕ) (c : MemCopy) (body : List Access) (found : Option ℕ) (m : Contents C) (d : ℕ)
      → All (Spares fresh) body
      → d ≢ buffer_of c.src_buffer
      → (execute_all m (merged_body fresh c body found)).buffers d ≡ (execute_all m body).buffers d
  merged_body-elsewhere fresh c body (some tensor) m d h ne =
      ap (λ (n : Contents C). n.buffers d)
        (execute_all-append m body (write tensor c.src_buffer c.size ∷ []))
      ∙ write_elsewhere (execute_all m body) tensor c.src_buffer d c.size ne
  merged_body-elsewhere fresh c body none m d h ne =
      let n = execute m (read fresh c.src_buffer c.size) in
      ap (λ (k : Contents C). k.buffers d)
        (execute_all-append n body (write fresh c.src_buffer c.size ∷ []))
      ∙ write_elsewhere (execute_all n body) fresh c.src_buffer d c.size ne
      ∙ (execute_all-Alike fresh n m body h
            ((λ b. refl), (λ v off. rw (==-of-ne fresh v (λ e. off (sym e))) refl))).0
          d

  -- A memcpy that is merged into a launch changes no buffer but its source: each other one, the
  -- destination too, is as the launch's own body leaves it, where the body writes no tensor of the
  -- new number.
  pub merge_launch_elsewhere :
      (fresh : ℕ) (value_ids : List (ℕ × ℕ)) (is_argument : ℕ → Bool) (reads : ℕ → List ℕ)
      (stands_for : ℕ → ℕ) (c : MemCopy) (body body' : List Access) (m : Contents C) (d : ℕ)
      → All (Spares fresh) body
      → d ≢ buffer_of c.src_buffer
      → merge_launch fresh value_ids is_argument reads stands_for c body ≡ some body'
      → (execute_all m body').buffers d ≡ (execute_all m body).buffers d
  unfolding merge_launch
  merge_launch_elsewhere fresh value_ids is_argument reads stands_for c body body' m d h ne e =
      >>=-elim (get_read_op value_ids is_argument reads (stands_for c.src_buffer)) _ e λ found p e1.
        >>=-elim (check (is_empty c.done_users)) _ e1 λ u q e2.
          subst
            (λ (made : List Access).
              (execute_all m made).buffers d ≡ (execute_all m body).buffers d)
            (some_injective e2) (merged_body-elsewhere fresh c body found m d h ne)
