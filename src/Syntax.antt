-- ===== src/Syntax.antt =====
-- core/lexer.cpp, core/parser.cpp and core/printer.cpp: the text of a program. A character is its byte.
pub mod Chars
pub mod Lexer
pub mod Quote
pub mod Left
pub mod Progress
pub mod Blank
pub mod Words
pub mod Names
pub mod Registers
pub mod RoundTrip
pub mod Args
pub mod Digits
pub mod Numbers
pub mod Steps
pub mod Params
pub mod ArgList
pub mod Printed
mod Tests
