-- ===== src/Dialect/Shapes.antt =====
-- What a successful parse gives.
use event_queue.Common.{
  ℕ, zero, suc, ◌<◌, ◌≡◌, refl, ap, subst, none, some, List, [], ◌∷◌, ◌++◌, length, arith, >>=-elim,
  some_injective, Option-cases, Bool-cases, inl, inr, true, false, Bool, ==_iff, check, ◌==◌,
  Option, ◌>>=◌, ◌∙◌,
}
use event_queue.Names.{Name, is_empty}
use event_queue.Dialect.State.{ValueType, i32, signal, OperationState, Body}
use event_queue.Dialect.Accessors.{get_data_bit, get_shape, get_mem_type}
use event_queue.Dialect.Parsers.{
  OpAsmParser, parse_create_mem, parse_arguments, arg_or, parse_launch, extents_of,
}

check-true : (b : Bool) (u : Unit {0}) → check b ≡ some u → b ≡ true
check-true true u e = refl
check-true false u e = cc

module _ (p : OpAsmParser) where
  -- A memory that is parsed has a shape and a type, but its width is under another name than the one
  -- that the accessor asks for: `getDataBit` casts a missing attribute.
  pub parse_create_mem_data_bit :
      (at to : p.Position) (s : OperationState)
      → parse_create_mem p at ≡ some (s, to)
      → (get_data_bit s ≡ none)
        × ((shape : List ℕ) × (get_shape s ≡ some shape))
        × ((type : Name) × (get_mem_type s ≡ some type))
  unfolding parse_create_mem get_data_bit get_shape get_mem_type
  parse_create_mem_data_bit at to s e = >>=-elim (p.parse_attribute at) _ e λ r0 _ e.
      >>=-elim (p.parse_comma r0.1) _ e λ r1 _ e. >>=-elim (p.parse_keyword r1) _ e λ r2 _ e.
        >>=-elim (p.parse_comma r2.1) _ e λ r3 _ e. >>=-elim (p.parse_keyword r3) _ e λ r4 _ e.
          >>=-elim (p.parse_comma r4.1) _ e λ r5 _ e. >>=-elim (p.parse_attribute r5) _ e λ r6 _ e.
            >>=-elim (extents_of r0.0) _ e λ ints _ e.
              subst
                (λ (q : OperationState).
                  (get_data_bit q ≡ none)
                  × ((shape : List ℕ) × (get_shape q ≡ some shape))
                  × ((type : Name) × (get_mem_type q ≡ some type)))
                (ap (λ (t : OperationState × p.Position). t.0) (some_injective e))
                (refl, (ints, refl), (r4.0, refl))

  -- Behind the last argument: an equals sign, the operands and their types.
  abbrev pub operands_behind :
      List Name → p.Position → Option (List Name × List Name × List ValueType × p.Position)
  operands_behind args at = do
    at1 ← p.parse_equal at
    (operands, at2) ← p.parse_operand_list at1
    (types, at3) ← p.parse_colon_type_list at2
    some (args, operands, types, at3)

  -- The loop `while` over the arguments, in finitely many rounds: with the variable `regionArg` and the
  -- arguments so far it ends at a position with that outcome.
  pub data Reads
      : Name
        → List Name
        → p.Position
        → Option (List Name × List Name × List ValueType × p.Position)
        → Type 0 where
    no_more :
        {name : Name} {args : List Name} {at : p.Position}
        → p.parse_optional_region_argument at ≡ none
        → Reads name args at (some (args, [], [], at))
    no_name :
        {name : Name} {args : List Name} {at at1 : p.Position} {read : Option Name}
        → p.parse_optional_region_argument at ≡ some (read, at1)
        → is_empty (arg_or p name read) ≡ true
        → Reads name args at (some (args, [], [], at1))
    last_one :
        {name : Name} {args : List Name} {at at1 : p.Position} {read : Option Name}
        → p.parse_optional_region_argument at ≡ some (read, at1)
        → is_empty (arg_or p name read) ≡ false
        → p.parse_optional_comma at1 ≡ none
        → Reads name args at (operands_behind (args ++ arg_or p name read ∷ []) at1)
    next_one :
        {name : Name} {args : List Name} {at at1 at2 : p.Position} {read : Option Name}
        {o : Option (List Name × List Name × List ValueType × p.Position)}
        → p.parse_optional_region_argument at ≡ some (read, at1)
        → is_empty (arg_or p name read) ≡ false
        → p.parse_optional_comma at1 ≡ some at2
        → Reads (arg_or p name read) (args ++ arg_or p name read ∷ []) at2 o
        → Reads name args at o

  -- With more rounds than there is text left the function gives an outcome that the loop reaches in
  -- finitely many rounds.
  pub parse_arguments-Reads :
      (fuel : ℕ) (name : Name) (args : List Name) (at : p.Position)
      → p.left at < fuel
      → Reads name args at (parse_arguments p fuel name args at)
  unfolding parse_arguments
  parse_arguments-Reads zero name args at h = absurd (omega arith)
  parse_arguments-Reads (suc fuel) name args at h =
      elim (Option-cases (p.parse_optional_region_argument at)) [
        | inl e ↦ rw (e, parse_arguments) (no_more e)
        | inr (r, e) ↦ elim (Bool-cases (is_empty (arg_or p name r.0))) [
          | inl empty ↦ rw (e, parse_arguments) (rw (empty, parse_arguments) (no_name e empty))
          | inr full ↦ elim (Option-cases (p.parse_optional_comma r.1)) [
            | inl n ↦
                rw (e, parse_arguments)
                  (rw (full, parse_arguments) (rw (n, parse_arguments) (last_one e full n)))
            | inr (to, c) ↦
                let m = p.argument_moves at r.0 r.1 e in
                let m' = p.comma_moves r.1 to c in
                let ih =
                  parse_arguments-Reads fuel (arg_or p name r.0) (args ++ arg_or p name r.0 ∷ []) to
                    (omega arith) in
                rw (e, parse_arguments)
                  (rw (full, parse_arguments) (rw (c, parse_arguments) (next_one e full c ih)))
          ]
        ]
      ]

  -- The launch is that of the text: the loop over the arguments reads names of arguments and operands
  -- behind the first parenthesis, and behind the word `in` stand the signal and the device. The first
  -- operand is that signal, the second one that device, and the others are those of the arguments.
  pub record IsLaunchOf (at : p.Position) (s : OperationState) : Type 0 where
    pub args : List Name
    pub names : List Name
    pub arg_types : List ValueType
    pub inside : p.Position
    pub behind : p.Position
    pub opened : p.parse_l_paren at ≡ some inside
    pub read : Reads [] [] inside (some (args, names, arg_types, behind))
    pub start_name : Name
    pub device_name : Name
    pub at_in : p.Position
    pub at_paren : p.Position
    pub at_start : p.Position
    pub at_comma : p.Position
    pub at_device : p.Position
    pub at_end : p.Position
    pub closed : p.parse_r_paren behind ≡ some at_in
    pub word_in : p.parse_given_keyword (b'i' ∷ b'n' ∷ []) at_in ≡ some at_paren
    pub paren : p.parse_l_paren at_paren ≡ some at_start
    pub read_start : p.parse_operand at_start ≡ some (start_name, at_comma)
    pub comma : p.parse_comma at_comma ≡ some at_device
    pub read_device : p.parse_operand at_device ≡ some (device_name, at_end)
    pub start_value : ℕ
    pub device_value : ℕ
    pub values : List ℕ
    pub start_resolved : p.resolve_operand start_name signal ≡ some start_value
    pub device_resolved : p.resolve_operand device_name i32 ≡ some device_value
    pub resolved : p.resolve_operands names arg_types ≡ some values
    pub operands_are : s.operands ≡ start_value ∷ device_value ∷ values
    pub counted : length names ≡ length args
    pub body : Body
    pub res_types : List ValueType
    pub from : p.Position
    pub to : p.Position
    pub body_parsed : p.parse_region args arg_types from ≡ some (body, to)
    pub regions_are : s.regions ≡ body ∷ []
    pub types_are : s.types ≡ signal ∷ res_types

  -- A launch that is parsed has the signal and the device that stand behind `in` as its first two
  -- operands, in that order, then an operand for each argument of its region, the region parsed with
  -- these arguments, and the signal as its first result: if the parser resolves a list of operands
  -- one after the other, each with its type.
  pub parse_launch-IsLaunchOf :
      (at to : p.Position) (s : OperationState)
      → ((n : Name) (t : ValueType) (names : List Name) (types : List ValueType) (vs : List ℕ)
          → p.resolve_operands (n ∷ names) (t ∷ types) ≡ some vs
          → (v : ℕ) × (ws : List ℕ) × (vs ≡ v ∷ ws)
            × (p.resolve_operand n t ≡ some v)
            × (p.resolve_operands names types ≡ some ws))
      → parse_launch p at ≡ some (s, to)
      → IsLaunchOf at s
  unfolding parse_launch
  parse_launch-IsLaunchOf at to s resolves e = >>=-elim (p.parse_l_paren at) _ e λ r0 h0 e.
      >>=-elim (parse_arguments p (suc (p.left r0)) [] [] r0) _ e λ r1 h1 e.
        >>=-elim (p.parse_r_paren r1.3) _ e λ r2 h2 e.
          >>=-elim (p.parse_given_keyword (b'i' ∷ b'n' ∷ []) r2) _ e λ r3 h3 e.
            >>=-elim (p.parse_l_paren r3) _ e λ r4 h4 e.
              >>=-elim (p.parse_operand r4) _ e λ r5 h5 e.
                >>=-elim (p.parse_comma r5.1) _ e λ r6 h6 e.
                  >>=-elim (p.parse_operand r6) _ e λ r7 h7 e.
                    >>=-elim (p.parse_r_paren r7.1) _ e λ r8 _ e.
                      >>=-elim (p.parse_optional_colon_type_list r8) _ e λ r9 _ e.
                        >>=-elim (check (length r1.1 == length r1.0)) _ e λ _ counted e.
                          >>=-elim (p.parse_region r1.0 r1.2 r9.1) _ e λ r10 region e.
                            >>=-elim (p.resolve_operands (r5.0 ∷ r7.0 ∷ r1.1) (signal ∷ i32 ∷ r1.2))
                              _ e
                              λ vs resolved e.
                                let (v0, ws, q0, s0, t0) =
                                  resolves r5.0 signal (r7.0 ∷ r1.1) (i32 ∷ r1.2) vs resolved in
                                let (v1, us, q1, s1, t1) = resolves r7.0 i32 r1.1 r1.2 ws t0 in
                                subst (IsLaunchOf at)
                                  (ap (λ (t : OperationState × p.Position). t.0) (some_injective e))
                                  (record {
                                    args = r1.0;
                                    names = r1.1;
                                    arg_types = r1.2;
                                    inside = r0;
                                    behind = r1.3;
                                    opened = h0;
                                    read = subst (Reads [] [] r0) h1 (
                                        parse_arguments-Reads (suc (p.left r0)) [] [] r0
                                          (omega arith));
                                    start_name = r5.0;
                                    device_name = r7.0;
                                    at_in = r2;
                                    at_paren = r3;
                                    at_start = r4;
                                    at_comma = r5.1;
                                    at_device = r6;
                                    at_end = r7.1;
                                    closed = h2;
                                    word_in = h3;
                                    paren = h4;
                                    read_start = h5;
                                    comma = h6;
                                    read_device = h7;
                                    start_value = v0;
                                    device_value = v1;
                                    values = us;
                                    start_resolved = s0;
                                    device_resolved = s1;
                                    resolved = t1;
                                    operands_are = q0 ∙ ap (λ (l : List ℕ). v0 ∷ l) q1;
                                    counted =
                                        (==_iff (length r1.1) (length r1.0)).0
                                          (check-true _ _ counted);
                                    body = r10.0;
                                    res_types = r9.0;
                                    from = r9.1;
                                    to = r10.1;
                                    body_parsed = region;
                                    regions_are = refl;
                                    types_are = refl;
                                  })
