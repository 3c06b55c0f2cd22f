-- ===== src/Flv/Same/Reads.antt =====
-- The reads of a body in segments give what those of its bytes give.
use rtmpx.Prelude.{
  ℕ, zero, suc, ◌+◌, ◌/◌, ◌<◌, Bool, true, false, ◌||◌, Option, none, some, List, length, ltb, ◌==◌,
  if◌then◌else◌, ok, arith,
}
use rtmpx.Prelude.Bytes.{Byte}
use rtmpx.Flv.Cursor.{
  CursorOps, read_u16, read_u24, read_i24, read_fourcc, sized_payload, read_size, modex_size,
  read_modex, modex_loop,
}
use rtmpx.Flv.Same.{
  list_ops, View, Same, fails, Any, same_value, Refines, Same-then, Same-weaken, Same-if, Same-ok,
}

module _ {C P : Type 0} (ops : CursorOps C P) (v : View C P) (sim : Refines ops v) where
  open sim use {read_u8_lem, take_lem, take_rest_lem, len_lem}

  pub read_u16-Same :
      (c : C)
      → v.good c
      → Same v same_value Any (v.rest_of c) 2 (read_u16 ops c) (read_u16 list_ops (v.rest_of c))
  unfolding read_u16
  read_u16-Same c good = Same-then _ _ (read_u8_lem c good) (λ a c1 good1 _ short1.
      Same-then _ _ (read_u8_lem c1 good1)
        (λ b c2 good2 _ short2. Same-ok _ c2 good2 tt (omega arith)))

  pub read_u24-Same :
      (c : C)
      → v.good c
      → Same v same_value Any (v.rest_of c) 3 (read_u24 ops c) (read_u24 list_ops (v.rest_of c))
  unfolding read_u24
  read_u24-Same c good = Same-then _ _ (read_u8_lem c good) (λ a c1 good1 _ short1.
      Same-then _ _ (read_u8_lem c1 good1) (λ b c2 good2 _ short2.
        Same-then _ _ (read_u8_lem c2 good2)
          (λ d c3 good3 _ short3. Same-ok _ c3 good3 tt (omega arith))))

  pub read_i24-Same :
      (c : C)
      → v.good c
      → Same v same_value Any (v.rest_of c) 3 (read_i24 ops c) (read_i24 list_ops (v.rest_of c))
  unfolding read_i24
  read_i24-Same c good =
      Same-then _ _ (read_u24-Same c good)
        (λ a c1 good1 _ short1. Same-ok _ c1 good1 tt (omega arith))

  pub read_fourcc-Same :
      (c : C)
      → v.good c
      → Same v same_value Any
          (v.rest_of c)
          4
          (read_fourcc ops c)
          (read_fourcc list_ops (v.rest_of c))
  unfolding read_fourcc
  read_fourcc-Same c good = Same-then _ _ (read_u8_lem c good) (λ a c1 good1 _ short1.
      Same-then _ _ (read_u8_lem c1 good1) (λ b c2 good2 _ short2.
        Same-then _ _ (read_u8_lem c2 good2) (λ d c3 good3 _ short3.
          Same-then _ _ (read_u8_lem c3 good3)
            (λ e c4 good4 _ short4. Same-ok _ c4 good4 tt (omega arith)))))

  pub sized_payload-Same :
      (c : C) (size : Option ℕ)
      → v.good c
      → Same v v.bytes_of v.is_view
          (v.rest_of c)
          0
          (sized_payload ops c size)
          (sized_payload list_ops (v.rest_of c) size)
  unfolding sized_payload
  sized_payload-Same c none good = take_rest_lem c good
  sized_payload-Same c (some len) good = Same-weaken (omega arith) (take_lem c len good)

  pub read_size-Same :
      (c : C) (sized : Bool)
      → v.good c
      → Same v same_value Any
          (v.rest_of c)
          0
          (read_size ops c sized)
          (read_size list_ops (v.rest_of c) sized)
  unfolding read_size
  read_size-Same c true good =
      Same-then _ _ (read_u24-Same c good)
        (λ a c1 good1 _ short1. Same-ok _ c1 good1 tt (omega arith))
  read_size-Same c false good = Same-ok _ c good tt (omega arith)

  modex_size-Same :
      (c : C)
      → v.good c
      → Same v same_value Any (v.rest_of c) 1 (modex_size ops c) (modex_size list_ops (v.rest_of c))
  unfolding modex_size
  modex_size-Same c good = Same-then _ _ (read_u8_lem c good) (λ b c1 good1 _ short1.
      Same-if (b + 1 == 256)
        (Same-then _ _ (read_u16-Same c1 good1)
          (λ w c2 good2 _ short2. Same-ok _ c2 good2 tt (omega arith)))
        (Same-ok _ c1 good1 tt (omega arith)))

  read_modex-Same :
      (c : C)
      → v.good c
      → Same v same_value Any (v.rest_of c) 1 (read_modex ops c) (read_modex list_ops (v.rest_of c))
  unfolding read_modex
  read_modex-Same c good = Same-then _ _ (modex_size-Same c good) (λ size c1 good1 _ short1.
      Same-then _ _ (take_lem c1 size good1) (λ p c2 good2 is_view short2.
        Same-then _ _ (read_u8_lem c2 good2) (λ next c3 good3 _ short3.
          Same-if (next / 16 == 0)
            (rw (len_lem p is_view)
              (Same-if (ltb (length (v.bytes_of p)) 3) fails (Same-ok _ c3 good3 tt (omega arith))))
            (Same-ok _ c3 good3 tt (omega arith)))))

  -- The loop ends within as many rounds as bytes are left, and one.
  pub modex_loop-Same :
      (fuel : ℕ) (c : C) (packet_type : ℕ) (flagged : Bool)
      → v.good c
      → length (v.rest_of c) < fuel
      → Same v same_value Any
          (v.rest_of c)
          0
          (modex_loop ops fuel c packet_type flagged)
          (modex_loop list_ops fuel (v.rest_of c) packet_type flagged)
  unfolding modex_loop
  modex_loop-Same zero c packet_type flagged good enough = elim enough [ ]
  modex_loop-Same (suc fuel) c packet_type flagged good enough =
      Same-if (packet_type == 7)
        (Same-then _ _ (read_modex-Same c good) (λ step c1 good1 _ short1.
          Same-weaken (omega arith)
            (modex_loop-Same fuel c1 step.1 (flagged || step.0) good1 (omega arith))))
        (Same-ok _ c good tt (omega arith))

  -- A four-byte code that is given, or read.
  pub given_or_read :
      (given : Bool) (four_cc : List Byte) (c : C)
      → v.good c
      → Same v same_value Any
          (v.rest_of c)
          0
          (if given then ok (four_cc, c) else read_fourcc ops c)
          (if given then ok (four_cc, v.rest_of c) else read_fourcc list_ops (v.rest_of c))
  given_or_read true four_cc c good = Same-ok _ c good tt (omega arith)
  given_or_read false four_cc c good = Same-weaken (omega arith) (read_fourcc-Same c good)

  pub read_or_shared :
      (reads : Bool) (four_cc : List Byte) (c : C)
      → v.good c
      → Same v same_value Any
          (v.rest_of c)
          0
          (if reads then read_fourcc ops c else ok (four_cc, c))
          (if reads then read_fourcc list_ops (v.rest_of c) else ok (four_cc, v.rest_of c))
  read_or_shared true four_cc c good = Same-weaken (omega arith) (read_fourcc-Same c good)
  read_or_shared false four_cc c good = Same-ok _ c good tt (omega arith)
