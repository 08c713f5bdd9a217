-- ===== src/Tuple/Accessor/Calls.antt =====
-- Sequences of reads through an accessor.
use storage_prototype.Common.{ℕ, ◌≡◌, ◌∙◌, refl, List, [], ◌∷◌}
use storage_prototype.Schema.{DataType, boolean, blob, char}
use storage_prototype.Tuple.Field.{FieldValue, Read, get_boolean, get_blob, get_string}
use storage_prototype.Tuple.Accessor.{
  TupleAccessor, is_null_at, get_at, get_string_at, get_field_value_at,
}
use storage_prototype.Tuple.Accessor.Cache.{view, IsCached}
use storage_prototype.Tuple.Accessor.Stateless.{accessor_lem}

-- A call of a method with an index. The getters of numbers differ in the type and the getter of the
-- value.
pub data Call : Type 0 where
  null_call : ℕ → Call
  boolean_call : ℕ → Call
  number_call : DataType → (FieldValue → Read ℕ) → ℕ → Call
  string_call : ℕ → Call
  blob_call : ℕ → Call
  value_call : ℕ → Call

-- The accessor after a call, and after several, the first one first.
pub after_call : Call → TupleAccessor → TupleAccessor
after_call (null_call i) a = (is_null_at i a).1
after_call (boolean_call i) a = (get_at boolean get_boolean i a).1
after_call (number_call type get i) a = (get_at type get i a).1
after_call (string_call i) a = (get_string_at i a).1
after_call (blob_call i) a = (get_at blob get_blob i a).1
after_call (value_call i) a = (get_field_value_at i a).1

pub after_calls : List Call → TupleAccessor → TupleAccessor
after_calls [] a = a
after_calls (c ∷ cs) a = after_calls cs (after_call c a)

abbrev pub SameTuple : TupleAccessor → TupleAccessor → Type 0
SameTuple a b = (view b ≡ view a) × IsCached b

after_call-SameTuple : (c : Call) (a : TupleAccessor) → IsCached a → SameTuple a (after_call c a)
unfolding after_call
after_call-SameTuple (null_call i) a w =
    let (seen, _, _, _) = accessor_lem char get_string i a w in (seen.1, seen.2)
after_call-SameTuple (boolean_call i) a w =
    let (_, seen, _, _) = accessor_lem boolean get_boolean i a w in (seen.1, seen.2)
after_call-SameTuple (number_call type get i) a w =
    let (_, seen, _, _) = accessor_lem type get i a w in (seen.1, seen.2)
after_call-SameTuple (string_call i) a w =
    let (_, _, seen, _) = accessor_lem char get_string i a w in (seen.1, seen.2)
after_call-SameTuple (blob_call i) a w =
    let (_, seen, _, _) = accessor_lem blob get_blob i a w in (seen.1, seen.2)
after_call-SameTuple (value_call i) a w =
    let (_, _, _, seen) = accessor_lem char get_string i a w in (seen.1, seen.2)

-- No sequence of reads changes what can be seen of the tuple.
pub after_calls-SameTuple :
    (cs : List Call) (a : TupleAccessor) → IsCached a → SameTuple a (after_calls cs a)
unfolding after_calls
after_calls-SameTuple [] a w = (refl, w)
after_calls-SameTuple (c ∷ cs) a w =
    let (same, w') = after_call-SameTuple c a w in
    let (same', w'') = after_calls-SameTuple cs (after_call c a) w' in (same' ∙ same, w'')
