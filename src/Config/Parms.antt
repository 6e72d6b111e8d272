-- ===== src/Config/Parms.antt =====
-- pkg/config/config.go: AddParm, ParseParms and cliSet. A variable that a `loc` points to is named
-- by its path from the `Config` structure. `configParms` is an association list, `keys` its keys in
-- order. A failed type assertion and a flag defined twice panic; flag.Parse ends the process on a
-- flag that it does not know or cannot convert.
pub mod Vars
pub mod Convert
pub mod Entry
pub mod Flags
pub mod Parse
pub mod Precedence
