-- ===== src/Parser.antt =====
-- tools/fsracer: the traces that the tool reads. The children are the lexer of TraceLexer.l and the grammar of
-- TraceParser.y, with its actions and those of TraceGeneratorDriver.cpp.
pub mod Lexer
pub mod Grammar
pub mod Program
pub mod Words
pub mod Lines
pub mod Marks
pub mod Pieces
pub mod Operations
pub mod Actions
pub mod Expressions
pub mod Constructs
pub mod Items
pub mod Executions
pub mod Blocks
pub mod Heads
pub mod RoundTrip
pub mod Total
pub mod Returns
pub mod Main
use fsracer.Prelude.{Text}

pub data Keyword : Type 0 where
  op_word do_word done_word hpath_word hpathsym_word new_fd_word del_fd_word rename_word : Keyword
  symlink_word atfdcwd_word begin_word main_word end_word new_event_word link_word : Keyword
  trigger_word submit_op_word sync_word async_word s_word m_word w_word external_word : Keyword
  produced_word consumed_word expunged_word : Keyword

-- The tokens. The end of the file is the end of the list.
pub data Token : Type 0 where
  colon exclamation pid cwd : Token
  keyword : Keyword → Token
  number op_id identifier error : Text → Token
