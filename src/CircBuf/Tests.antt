-- ===== src/CircBuf/Tests.antt =====
-- Concrete runs of cbuff.c, and the theorems at a buffer of three bytes whose contents go round the
-- end.
use esp_misc.Common.{
  ℕ, ◌≢◌, bit_or, ◌==◌, if◌then◌else◌, ◌%◌, ◌≡◌, refl, inl, true, false, some, List, [], ◌∷◌, arith,
}
use esp_misc.CircBuf.{
  CbuffObj, Ring, put_byte, get_byte, unput_byte, clear_buffer, peek_tail, peek_head, get_space,
  get_fill, put_array, get_array,
}
use esp_misc.CircBuf.Registry.{Registry, create, new_obj, destroy, open_buffer, close}
use esp_misc.CircBuf.Handles.{open_close}
use esp_misc.CircBuf.Chain.{Destroys, destroy_lem}
use esp_misc.CircBuf.Numbers.{IsLowestFree, create_number}
use esp_misc.CircBuf.Deque
use esp_misc.CircBuf.Deque.{
  Op, put_op, get_op, unput_op, tail_op, head_op, clear_op, space_op, fill_op,
}
use esp_misc.CircBuf.Valid.{IsValid, contents}
use esp_misc.CircBuf.Clients
use esp_misc.CircBuf.Clients.{run, run_refines}
use esp_misc.CircBuf.PutArray.{put_array_lem, Wrote}
use esp_misc.CircBuf.GetArray.{get_array_lem, Took}

abbrev wrapped_obj : CbuffObj
wrapped_obj = record {
  start_of_buffer = 100;
  end_of_buffer = 102;
  in_pointer = 101;
  out_pointer = 102;
  buffer_number = 1;
  cbuff_full = false;
  cbuff_empty = false;
  cbuff_open = true;
  next_circ_buffer_obj = 0;
}

-- Holds the bytes at 102 and 100; every address holds the last digit of its number.
abbrev wrapped : Ring
wrapped = record { mem = λ a. a % 10; obj = wrapped_obj }

wrapped-IsValid : IsValid wrapped_obj
wrapped-IsValid = record {
  not_null = omega arith;
  ordered = omega arith;
  fits = omega arith;
  in_low = omega arith;
  in_high = omega arith;
  out_low = omega arith;
  out_high = omega arith;
  full_meets = ground arith;
  empty_meets = ground arith;
  met = ground arith;
  not_both = ground arith;
}

contents-wrapped : contents wrapped ≡ 2 ∷ 0 ∷ []
contents-wrapped = refl

abbrev script : List Op
script =
    put_op 7
    ∷ put_op 8
    ∷ get_op
    ∷ head_op
    ∷ space_op
    ∷ unput_op
    ∷ tail_op
    ∷ get_op
    ∷ get_op
    ∷ clear_op
    ∷ fill_op
    ∷ []

run-wrapped :
    run 50 script wrapped
    ≡ (1, 0)
      ∷ (0, 0)
      ∷ (1, 2)
      ∷ (1, 7)
      ∷ (1, 7)
      ∷ (0, 7)
      ∷ (1, 0)
      ∷ (1, 0)
      ∷ (0, 0)
      ∷ (0, 0)
      ∷ (0, 0)
      ∷ []
unfolding run Clients.step put_byte get_byte unput_byte clear_buffer peek_tail peek_head get_space
    get_fill
run-wrapped = refl

run_refines_example : run 50 script wrapped ≡ Deque.run 3 0 script (2 ∷ 0 ∷ [])
run_refines_example = run_refines 50 script wrapped wrapped-IsValid (inl (omega arith))

-- Two bytes offered at 55, one place left.
put_array_lem_example : (t : Ring) × (put_array 9 55 2 wrapped ≡ some (1, t)) × Wrote wrapped 55 1 t
put_array_lem_example =
    put_array_lem 9 55 2 wrapped wrapped-IsValid (omega arith) (omega arith) (omega arith)
      (λ k l. inl (omega arith))

get_array_lem_example : (t : Ring) × (get_array 9 50 5 wrapped ≡ some (2, t)) × Took wrapped 50 2 t
get_array_lem_example =
    get_array_lem 9 50 5 wrapped wrapped-IsValid (omega arith) (omega arith) (omega arith)
      (λ k l. inl (omega arith))

-- The numbers 1, 2 and 8 are active.
abbrev three_objs : Registry
three_objs = record {
  start_of_cbuff_objs = 50;
  active_cbuff_objs = 11;
  objs = λ a. record wrapped_obj { next_circ_buffer_obj = if a == 50 then 40 else 0 };
}

create_number_example :
    let (num, after) = create 100 8 60 three_objs in
    IsLowestFree 11 1 num
    × ((after.start_of_cbuff_objs ≡ 60)
        × ((after.active_cbuff_objs ≡ bit_or 11 num)
            × (num ≢ 0 → after.objs 60 ≡ new_obj 100 8 num 50)))
create_number_example =
    create_number 100 8 60 three_objs (omega arith) (omega arith) (omega arith) (omega arith)
      (omega arith)

-- The objects at 50 and 40 have the numbers 8 and 2.
abbrev two_objs : Registry
two_objs = record {
  start_of_cbuff_objs = 50;
  active_cbuff_objs = 10;
  objs = λ a. record wrapped_obj {
    buffer_number = if a == 50 then 8 else 2;
    cbuff_open = false;
    next_circ_buffer_obj = if a == 50 then 40 else 0;
  };
}

destroy_lem_example : Destroys two_objs 2 (50 ∷ 40 ∷ []) (destroy 5 2 two_objs)
destroy_lem_example =
    destroy_lem 5 2 (50 ∷ 40 ∷ []) two_objs (refl, (omega arith, (refl, (omega arith, refl))))
      ((omega arith, tt), (tt, tt)) (omega arith)

open_close_example :
    let (handle, after) = open_buffer 5 2 two_objs in
    (handle ≡ 40)
    × (((open_buffer 5 2 after).0 ≡ 0)
        × (((close handle after).0 ≡ 2)
            × ((a : ℕ) → (close handle after).1.objs a ≡ two_objs.objs a)))
open_close_example =
    open_close 5 2 50 40 (40 ∷ []) two_objs (refl, (omega arith, (refl, (omega arith, refl))))
      (omega arith) refl refl
