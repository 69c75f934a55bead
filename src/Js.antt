-- ===== src/Js.antt =====
-- The part of JavaScript that the client's code rests on: values, completions, texts.
pub mod Value
pub mod Object
