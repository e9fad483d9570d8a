-- ===== src/Lib.antt =====
-- A model of cty, a dynamic type system for applications written in Go (package cty and its
-- subpackages set, convert, ctymarks and function).
--
-- The parts, and the files that model them:
--
-- * cty/set is a hash set over rules that its caller gives: a hash, an equivalence and, for some
--   rules, an order. HashSet models `Set` as a record of its buckets, a map from hash values to
--   slices, and its rules; a rules instance is a value of a type `R` on which the interface
--   `Rules` acts. An operation that mutates its receiver returns the new set; a panic is `none`.
--   HashSet/Lawful has the contract of rules.go and the well-formedness of buckets,
--   HashSet/Membership, HashSet/Removal and HashSet/Copying the operations on one set,
--   HashSet/Values the enumeration, HashSet/Cardinality sizes, and HashSet/Algebra the
--   operations on two sets. Equivalence is not assumed to be reflexive, since the rules of cty's
--   own sets do not make an unknown value equivalent to itself.
-- * cty/type.go and the files of the kinds of types are in Types. A type is a tree; the
--   attributes of an object are kept in a list that stands for Go's unspecified map order, with
--   the names of the optional attributes beside it. Types/Equality is `Equals`, Types/SameType
--   is its specification and Types/Soundness relates the two. Types/Shape is HasDynamicTypes,
--   WithoutOptionalAttributesDeep and the constructors of object types, Types/Optional their
--   laws, and Types/Conformance is `TestConformance` of cty/type_conform.go, with its
--   specification in Types/Conformance/Spec.
-- * cty/unknown_refinement.go is Refinement: values without marks as far as refinements look
--   into them, with a number type that is a parameter (`NumberOrder`, the order of big.Float),
--   the builder of refinements in Refinement/Builder and Refinement/Numbers, where a panic is
--   `none`, and `RefineWith` as a list of requests in Refinement/Requests. Refinement/Meaning
--   says which outcomes a value may turn out to be; Refinement/Narrowing and Refinement/Kinds
--   are about single steps, Refinement/Completion about `NewValue` and whole sequences,
--   Refinement/Crossing and Refinement/Panics about the panics, Refinement/Range about `Range`
--   and the methods of `ValueRange` in cty/value_range.go, but for `Includes`, and
--   Refinement/Comparison about `LessThan` and `GreaterThan`, which answer by ranges. Lengths
--   are natural numbers, so a bound that is a negative length is not modelled, and fractions are
--   of one precision, so that rawNumberEqual, which compares their texts, agrees with their
--   order. `StringPrefix`, which shortens a prefix by third-party segmentation, is left out.
--   Whether Go's make has room for a slice of a length is a parameter of NewValue.
-- * cty/path.go and cty/path_set.go are Paths: a path is a list of steps, a set of paths is the
--   hash set under the rules of paths, and Paths/Equality has its laws. The keys of index steps
--   and the checksum of hash/crc64 are the parameter `Keys`. Paths/IndexKeys has the keys that are
--   numbers and texts, which keep the laws of `Keys`: that equality is symmetric and transitive;
--   of keys of other types these laws are assumed. Marked keys, on which the rules of paths panic,
--   are left out. HashSet/Cardinality, on the sizes of sets, is what the comparison of two path
--   sets rests on.
-- * cty/convert is Convert. Convert/Compare is compare_types.go, the preference order of
--   unification. Convert/Plans has the conversions as data, one constructor for each Go closure
--   with what it captures, `unsafe` included where the closure unifies elements when it runs, and
--   Convert/Conversions is the decision of getConversion in conversion.go and of the files
--   conversion_object.go, conversion_tuple.go, conversion_collection.go and
--   conversion_capsule.go: it recurs on the source type.
--   Convert/Conversions/Safety and Convert/Conversions/Widening are about safe and unsafe
--   conversions. `unify` is an argument there, so the theorems hold for whatever types it settles
--   on. Convert/Sorting is sortTypes, whose loop over the queue runs on a number of rounds, and
--   Convert/Sorting/Visits shows that as many rounds as there are types are enough.
--   Convert/Preference is what `unify` does from its call of sortTypes on.
-- * cty/json.go is Types/Json: MarshalJSON and UnmarshalJSON of types over a tree of JSON
--   values. The text of such a tree is printed and read by encoding/json, which also decodes
--   maps, slices and null; a decoding ends with a type, an error or a panic. Types/Json/Reading
--   and Types/Json/RoundTrip relate the two directions.
-- * cty/value.go, cty/marks.go and cty/marks_wrangle.go are Values: a value is a tree in which a
--   marker may stand around any content, and a set of marks is a list. Values/Marks has the laws
--   of sets of marks, Values/Wrangle the walk of `WrangleMarksDeep`, where a wrangler is a
--   function that passes a state on, as a Go closure over variables does, Values/Stripping the
--   plain removal of all markers, Values/Unmarking `UnmarkDeep` against it, and
--   Values/WellMarked the form of markers that every operation keeps. The numbers inside values
--   are a parameter. Values/Walk is `Walk` and `DeepValues` of cty/walk.go, with their order in
--   Values/Walk/Order and ContainsMarked as such a loop in Values/Walk/Search; Values/Logic is
--   `Not`, `And` and `Or` of cty/value_ops.go over the type check of cty/helper.go, and
--   Values/RawEquality is `RawEquals`, with the comparison of marks in
--   Values/RawEquality/Marking and that of refinements in Values/RawEquality/Contents.
--   Values/Nulls is UnknownAsNull with ListVal and MapVal, where SetVal is an argument.
-- * cty/function is Functions: `Spec` and `Parameter` and the checks of ReturnTypeForValues, in
--   Functions/Calling `Call` with its deferred recover and refinement and `Unpredictable`, and
--   in Functions/Descriptions `WithNewDescriptions`. A callback returns, returns an error or
--   panics. Functions/Arguments and Functions/Calls are about the arguments that Impl is given,
--   Functions/Results about the type of a result and Functions/Marking about its marks.
-- * cty/function/stdlib/collection.go is Stdlib, where Stdlib/Chunklist is ChunklistFunc.
--
-- The modules under Prelude hold what the parts share: Boolean tests, lists, Go's maps as
-- association lists, stable sorting, and integers.
--
-- Recursions over two types at once (Equals exchanges its arguments at each attribute) run on a
-- number that bounds the depth of both, and the entry points start it at the larger depth.
--
-- Text normalisation (golang.org/x/text) is the parameter `Normalizer`. `NilType` is the absence
-- of an Option. Theorems on types assume what Go's maps give, that no attribute name stands
-- twice, and where names are normalised that they are normal already, as every constructor makes
-- them.
--
-- Not modelled: the other operators on values, sets of values as SetVal builds them, what the
-- conversions do to values, the unification of types of one kind, the serialisations of values, Go
-- bindings and the other functions of the standard library; English texts of errors and type
-- names. An argument of a function that is NilVal, and an Impl that returns NilVal without an
-- error, are misuse and left out.
pub mod Prelude
pub mod HashSet
pub mod Types
pub mod Convert
pub mod Refinement
pub mod Paths
pub mod Values
pub mod Functions
pub mod Stdlib
