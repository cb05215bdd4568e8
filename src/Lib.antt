-- ===== src/Lib.antt =====
-- The core of the Cutter API (src/): the engine that lays pieces out on sheets, the check of a sheet
-- that a seller laid out by hand, the life of an order with the time it takes, the shop's working hours,
-- the refresh tokens of a session, the check of a client's tax id and the lives of consumables.
--
-- Parts and files.
-- - Prelude: what the modules share: tests on numbers, lists and predicates on their members and
--   pairs, Python's stable `sorted`, signed integers.
-- - Cutting.Models, Cutting.Geometry: src/cutting/models.py, enums.py and parameters.py, and
--   boxes that lie within and apart from one another.
-- - Cutting.Packer: src/cutting/packer.py, `expand_pieces` and `GuillotineOptimizer`. Expand
--   is the expansion and the order of the pieces, Split is `_split_remainder` with the cuts and the
--   rectangles that it makes, Place is `_place_piece` and `optimize`. The optimizer's fields are two
--   records: Settings, which `__init__` fixes, and State, which placing changes; every method that
--   writes `self` takes a State and gives the next one. SplitLaws, Choice, Placement, Invariant, Run,
--   Leftover, Optimize and ExpandLaws are proofs.
-- - Cutting.SheetCheck: src/cutting/sheet_check.py, `iter_violations` and `is_cuttable`, with
--   signed corners since a layout comes from outside. Packed joins it to the packer: what the packer
--   emits passes the check. Realize is `realize_sheet`, on top of Cutting.Consolidate.
-- - Cutting.Consolidate: src/cutting/consolidate.py. Score is `_score`, Search the state of
--   `_Consolidator` with `_candidates`, Derive is `solve`, `_apply`, `derive_tree` and the two functions on
--   layouts. Tree says what a guillotine tree of a region is, apart from how one is found; Candidates,
--   Answers, Apply and Total show that the search finds such trees, Sides and Sound what such a tree is
--   good for, Never what becomes of a sheet.
-- - Cutting.Constructors: src/cutting/constructors.py. Order holds the types of pieces and the sort keys, Fill is
--   `BinFill` and `greedy_fill`, Strip the choice of one strip of `strip_fill`, Rounds its loop and its
--   result; a call's arguments are the record StripJob, the variables of the loop are Progress. Parted, Beside,
--   Packs, Advance, Loop, Filled, Distances, Pieces, Pool and Greedy are proofs.
-- - Orders: src/modules/orders. Status holds the tables of model.py, Model the rows of an order as one
--   record with its child rows as lists, Payments is payments.py and the credit properties of
--   `OrderModel` on top of Doubles, Pauses is pauses.py with `_lift_waiting` and `_close_pause`, Machine is
--   `_transition_unlocked` gate by gate and effect by effect, Activities is `transition_activity`,
--   `pause_activity` and `resume_activity`, Registers is `mark_piece_cut`, `add_payment` and
--   `void_payment`. Operations puts them in one type with the orders that calls lead to; Gates, History,
--   Reachability, Credit, Moves, Handover, Derived, Owed and Waiting are proofs. Sample and the modules
--   named Tests apply the theorems to concrete sheets and orders.
-- - Orders.Production: src/modules/orders/production.py. Segments is the timeline of a cut, Days the work of
--   a day, Live the credit of a sheet and the live states; Union, DayLaws, DayTotals and SegmentLaws are
--   proofs. `split_by_day`, a loop from midnight to midnight, takes as fuel the days of the span and two,
--   which is proved enough.
-- - Optimizations: src/modules/optimizations/patterns.py. Patterns is `base_label` and `piece_instance_ids`,
--   Groups is `order_sheets`, `layout_signature` and `group_layouts`, with the digits of ASCII; Decimal,
--   CounterLaws, Counting, Instances, GroupLaws, Grouping, Patterning and Halves are proofs.
-- - Preorders: src/modules/preorders. Quote is the row of a pre-order with its links and history and what
--   `get_or_404` does to it, Calls is `update` and `delete` of service.py and the methods of review_service.py; Closed, Moves,
--   Kept and Reached are proofs. What the engine says of the inputs and what `OrderService.create` gives are
--   arguments of a call.
-- - Shared: src/shared. Clock and Schedule are the working hours of work_schedule.py as they are stored and
--   read, Windows is the part of it that measures time, with `local_date` and `local_midnight_utc` of
--   business_time.py. ScheduleLaws, Intervals, WindowLaws and WorkedTime are proofs. The zone is a
--   parameter, whose offset the theorems take to be fixed.
-- - Users: src/modules/users. RefreshTokens is refresh_token_service.py, with the rows as lists and the hash,
--   the generated tokens and the clock as arguments; RefreshLaws holds the proofs.
-- - Clients: src/modules/clients/tax_id.py is TaxId, for the digits of ASCII; TaxIdLaws holds the proofs.
-- - Consumables: src/modules/consumables/rules.py is Rules, on top of Shared.Windows.
--
-- Units. Lengths of the cutting engine are whole nanometres, so that its tolerances 1e-6, 0.01 and
-- 0.1 mm are 1, 10000 and 100000; of its operations modelled `_score` rounds, which is written out, and
-- `_candidates` rounds to a nanometre, which changes nothing there. Instants are numbers, of microseconds
-- where time is measured. Orders.Doubles has the doubles of Python for money: what is offered in cash or by
-- transfer is one, and is rounded to cents as `round(..., 2)` does it; payments kept, their sums and the credit of a
-- sale are whole cents, though the schema takes any number for the credit. Where a test against the tolerance of
-- one cent is at exactly that cent, the model compares the doubles, as the source does. At other distances it compares
-- the cents, which is the same for amounts whose doubles are nearer than half a cent to them. The
-- rounding of binary floating point is not modelled elsewhere. The CHECK of the table of payments, which
-- refuses a row of zero when the session commits, is left to the database.
--
-- Loops are recursions on the lists that they run over and need no fuel, but for `split_by_day` above
-- and `solve` of consolidate.py, which calls itself on the two sides of a cut. Its fuel is the depth of
-- the calls, two more than the node budget, which is enough, as each call that goes deeper has spent one
-- of the budget: with it `solve` always returns. The loop of `strip_fill` has as fuel the room along its
-- axis and two, enough as every round but the last narrows the room; a quotient of its score is compared crosswise. `create_split_rectangles` and the searches over free
-- rectangles and orientations are written out by case.
--
-- State and errors. A method of the order service that raises gives `refused` with the reason and what
-- its message quotes; one that commits gives `ok` with the new order. The order that a refusal leaves is the one
-- before, as the session is not committed; that `_ensure_activities` may have committed the missing rows
-- of an order before a later gate refuses is left out.
--
-- Not modelled: the web layer, the database and its queries (the rows of an order are lists; the ids of
-- payments come from a counter; the rows of activities keep the order they were built in), notifications, which are sent after
-- the commit and cannot fail it, the wording of messages and of the history rows that the service
-- writes itself, kept as their data. `_ensure_cutting_plan` and the scope of branches are taken as done: the
-- placed pieces are there. Whether a snapshot bills edge banding or carries workshop codes is
-- a flag of the order. Search over many sheets, where a piece may go on a sheet laid out by hand, prices and reports are left out.
pub mod Prelude
pub mod Cutting
pub mod Orders
pub mod Shared
pub mod Users
pub mod Clients
pub mod Consumables
pub mod Optimizations
pub mod Preorders
