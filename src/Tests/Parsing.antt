-- ===== src/Tests/Parsing.antt =====
-- Traces that the tool reads from their dumps.
use fsracer.Prelude.{
  ◌≡◌, refl, true, false, [], ◌∷◌, codes, text_ord, nat_ord, negsuc, ok, none, some, out_of_range,
  arith,
}
use fsracer.Operation.{Operation, consumed, hpath, new_fd, rename, at_fdcwd}
use fsracer.Trace.{
  BlockType, EventType, Event, new_event, link, trigger, submit_async, submit_sync, Trace,
}
use fsracer.DumpAnalyzer.{new_dump, dump_trace, dump_output}
use fsracer.Parser.Lexer.{classify}
use fsracer.Parser.Items.{Each}
use fsracer.Parser.Executions.{IsPrintableExec}
use fsracer.Parser.Blocks.{IsPrintableBlock}
use fsracer.Parser.Program.{expr_of, make_block, parse}
use fsracer.Parser.RoundTrip.{kept, IsPrintableTrace, parse-dump_output}
use fsracer.Parser.Total.{Made}
use fsracer.Parser.Returns.{parse-Made}
use fsracer.Parser.Main.{
  exited, crashed, ending_of, main, main-dump_output, main-too_large, main-one_sided,
}
use fsracer.Processor.Pipeline.{run}
use fsracer.Tests.Runs
use fsracer.Tests.Runs.{info, args}

abbrev renaming : Operation
renaming = record {
  failed = true;
  actual_op_name = codes "rename";
  action = rename at_fdcwd (codes "/home/f") 7 (codes "/home/g");
}

abbrev opening : Operation
opening = record {
  failed = true;
  actual_op_name = codes "open";
  action = new_fd 5 (codes "f") (negsuc 0);
}

abbrev reading : Operation
reading = record {
  failed = false;
  actual_op_name = codes "lstat";
  action = hpath at_fdcwd (codes "/home/f") consumed;
}

abbrev weak_event : Event
weak_event = record { event_type = EventType.w; event_value = 2 }

abbrev written : Trace
written = record {
  blocks =
      make_block 1 BlockType.main (
        expr_of (new_event 2 weak_event) (codes "setup" ∷ codes "rename_dir" ∷ [])
        ∷ expr_of (submit_async (codes "async_1") 2) (codes "rename" ∷ [])
        ∷ expr_of (submit_sync (codes "sync_2")) (codes "lstat" ∷ [])
        ∷ [])
      ∷ make_block 3 BlockType.main []
      ∷ make_block 2 BlockType.reg (expr_of (link 2 4) [] ∷ expr_of (trigger 4) [] ∷ [])
      ∷ [];
  exec_ops =
      record { id = codes "async_1"; operations = renaming ∷ opening ∷ [] }
      ∷ record { id = codes "sync_2"; operations = reading ∷ [] }
      ∷ [];
  thread_id = 4711;
  cwd = codes "/home";
}

written-IsPrintableExec : Each IsPrintableExec written.exec_ops
unfolding classify
written-IsPrintableExec = (
  record {
    id = record { one_run = refl; token = refl };
    operations = (
      record {
        action = (
          omega arith,
          (
            record { one_run = refl; token = refl },
            (omega arith, record { one_run = refl; token = refl }),
          ),
        );
        name = record { small = refl; is_one = refl; token = refl };
        is_no_flag = refl;
      },
      (
        record {
          action = (omega arith, (record { one_run = refl; token = refl }, refl));
          name = record { small = refl; is_one = refl; token = refl };
          is_no_flag = refl;
        },
        tt,
      ),
    );
  },
  (
    record {
      id = record { one_run = refl; token = refl };
      operations = (
        record {
          action = (omega arith, record { one_run = refl; token = refl });
          name = record { small = refl; is_one = refl; token = refl };
          is_no_flag = refl;
        },
        tt,
      );
    },
    tt,
  ),
)

written-IsPrintableBlock : Each IsPrintableBlock (kept written.blocks)
unfolding classify
written-IsPrintableBlock = (
  record {
    id = omega arith;
    is_kept = refl;
    exprs = (
      record {
        construct = (omega arith, omega arith);
        debug = (
          (
            record { small = refl; is_one = refl; token = refl },
            (record { small = refl; is_one = refl; token = refl }, tt),
          ),
          (refl, tt),
        );
      },
      (
        record {
          construct = (record { one_run = refl; token = refl }, omega arith);
          debug = ((record { small = refl; is_one = refl; token = refl }, tt), tt);
        },
        (
          record {
            construct = record { one_run = refl; token = refl };
            debug = ((record { small = refl; is_one = refl; token = refl }, tt), tt);
          },
          tt,
        ),
      ),
    );
  },
  (
    record {
      id = omega arith;
      is_kept = refl;
      exprs = (
        record { construct = (omega arith, omega arith); debug = tt },
        (record { construct = omega arith; debug = tt }, tt),
      );
    },
    tt,
  ),
)

written-IsPrintable : IsPrintableTrace written
unfolding classify
written-IsPrintable = record {
  directory = record { one_run = refl; token = refl };
  exec_ops = written-IsPrintableExec;
  blocks = written-IsPrintableBlock;
}

parse-dump_output_example :
    parse (dump_output (dump_trace written new_dump))
    ≡ ok (record written { blocks = kept written.blocks })
parse-dump_output_example = parse-dump_output written written-IsPrintable tt (omega arith)

abbrev alone : Trace
alone = record written { blocks = make_block 3 BlockType.main [] ∷ [] }

alone-IsPrintable : IsPrintableTrace alone
unfolding classify
alone-IsPrintable = record {
  directory = record { one_run = refl; token = refl };
  exec_ops = written-IsPrintableExec;
  blocks = tt;
}

main-dump_output_example :
    main info (some (dump_output (dump_trace written new_dump)))
    ≡ ending_of (run args none (record written { blocks = kept written.blocks }))
unfolding Runs.program
main-dump_output_example =
    main-dump_output info args written refl written-IsPrintable tt (omega arith)

main-one_sided_example : main info (some (dump_output (dump_trace alone new_dump))) ≡ exited
unfolding Runs.program
main-one_sided_example = main-one_sided info args alone refl alone-IsPrintable (λ e. e)

abbrev numbered : Trace
numbered = record written { thread_id = 2147483648 }

numbered-IsPrintable : IsPrintableTrace numbered
unfolding classify
numbered-IsPrintable = record {
  directory = record { one_run = refl; token = refl };
  exec_ops = written-IsPrintableExec;
  blocks = written-IsPrintableBlock;
}

main-too_large_example :
    main info (some (dump_output (dump_trace numbered new_dump))) ≡ crashed out_of_range
unfolding Runs.program
main-too_large_example =
    main-too_large info args numbered refl numbered-IsPrintable tt (λ h. omega (arith, h))

-- The number of the process has more than 31 bits.
parse-Made_example :
    Made (parse (codes "!Blocks: 1\n!PID: 99999999999\n!Working Directory: /home\n"))
parse-Made_example = parse-Made (codes "!Blocks: 1\n!PID: 99999999999\n!Working Directory: /home\n")
