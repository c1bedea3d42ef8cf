-- ===== src/Params.antt =====
-- model/params.go: the parameters of a command. The children hold the references, the byte arrays,
-- the parser of typed values and the validation.
pub mod Refs
pub mod Bytes
pub mod Parse
pub mod Spec
