-- ===== src/Lib.antt =====
-- Models and proofs of the programs of this repository, each of which stands in a directory of its
-- own and is a program by itself; they share no code.
--
-- 27_driver/ringbuf_driver.c, the ring buffer device: RingDriver has `struct ring_buffer` and the
-- functions that change it, RingDriver/Copy what the kernel's copies to and from the caller do,
-- RingDriver/Device the file operations, the module parameter, loading and unloading. The mutex is
-- not modelled as such: each operation runs under it as a whole, and an interrupted wait is an
-- argument.
--
-- 04_types_contd_homework-12926-ae2162/main.c, the converter from CP1251, KOI8-R and ISO-8859-5 to
-- UTF-8: Codepage has codepage_to_utf8 over the bytes of a file, Codepage/Tables the three tables,
-- Codepage/Utf8 utf8_encode and a strict decoder to read its output by. Files are not modelled.
--
-- 03_types_homework-12926-ac0783/main.c, the lister of ZIP archives that stand behind other data:
-- Zip has zip_read, zip_member and the loop of list_zip, Zip/Headers the records and the functions
-- that read them, Zip/Bytes the little-endian reads. A pointer into the file is its index, a read
-- past the file's end or a failed assertion is an outcome of its own. The loop of list_zip has
-- fuel, one turn more than the archive has members, which is shown to be enough. mktime is a
-- parameter.
--
-- 17_log_reader/main.c, the traffic counter over web server logs: LogReader/Maps has the two hash
-- maps, LogReader/Line parse_log_line and what a worker counts of a line, LogReader/Decode
-- url_decode, LogReader/Files the choice of the files, LogReader/Queue the workers' queue as a step
-- relation, LogReader/Text the string functions. Failed allocations are arguments; a count beyond
-- an int has no result; a step of a worker under a mutex is atomic. atoll is a parameter.
--
-- 16_crc32/main.c, the CRC-32 of a file: Crc32 has crc32_raw and the loop of main over the chunks,
-- Crc32/Table the table, Crc32/Bitwise the shift register it stands for, Crc32/Chunks the loop. The
-- fuel of the loop is one more than the file's bytes, enough since a chunk is never empty. Whether
-- a chunk can be mapped is an argument.
--
-- 23_http_server/main.c, the server of static files: HttpServer has `struct connection`,
-- HttpServer/Request the reading and answering of requests, HttpServer/Write handle_write,
-- HttpServer/Listen parse_args and setup_listen_socket, HttpServer/Slots accept_connection and
-- free_conns, HttpServer/Slots/Compact what free_conns leaves of the table, HttpServer/Loop main
-- over the events of kqueue, HttpServer/Loop/Bounded and HttpServer/Safe what holds after any
-- events, HttpServer/Sent and below it the bytes sent. What sscanf, strtol and decimal conversion
-- make of a request and what the system calls return are parameters; the files do not change while
-- the server runs.
--
-- 08_search_sort_homework/hashmap_open.c, the counter of the words of a file: HashMap has the map
-- with open addressing, HashMap/Words countWords over the bytes of the file, HashMap/Good the
-- invariant, HashMap/Grow createHashmap, put and rehashUp, HashMap/Recount and HashMap/Tally what
-- countWords counts, HashMap/Descending printDescending and main, HashMap/Lost what xremove leaves.
-- The products in floating point are parameters, of which Scaled says what the factors of
-- countWords keep to as long as float holds the sizes exactly. raw_put has fuel for rehashUp inside
-- itself, 2, which is enough since a map twice as large has room for all; a search has a turn for
-- each basket, and a search that would not end has no result.
--
-- 12_error_handling/logger.c, the logging library: Logger/Queue has the linked list of an
-- asynchronous logger and its thread as a step relation, with memory as a function from addresses;
-- Logger/Levels the levels and the variables of the environment, Logger/State the state and the
-- public functions, Logger/Calls sequences of calls, Logger/Write the text and the writing of a
-- message, Logger/Sink where it ends up. A thread may still queue a message after the writer has
-- ended. The last loop of the writer has a turn for each message, which is shown to be enough. The
-- environment, the opening of files, the start of threads, strtol and the formatting of arguments
-- and of the time are parameters.
--
-- 35_game/main.c, noughts and crosses: Game has the board, the clicks, main's events and what is
-- drawn, Game/Lines the lines of the board, Game/Fair and Game/Played what holds after any events,
-- Game/Clicked where a click falls. The events are a list, each with whether the queue is empty
-- after it.
--
-- 29_dbstat/main.c, the statistics of a column of a database table: DbStat has the arguments and the
-- text of the query, DbStat/Rows the statistics, DbStat/Run main with its calls of the database
-- library and the handler at exit; DbStat/Query reads the query, DbStat/Rows/Spans and
-- DbStat/Rows/Described say what the statistics are, DbStat/Run/Balanced and DbStat/Run/Reported
-- what the program does. The database, what getopt returns, strtod and the arithmetic of double are
-- parameters; of its order IsOrdered says what holds with NaN too. A row is its first field.
--
-- 15_daemon, the daemon that tells the size of a file: Daemon/Config has load_config of config.c
-- over the events of the YAML library, Daemon/Config/Mapping what it makes of a flat mapping;
-- Daemon/PidFile the functions of main.c for the file with the number of the process, Daemon/Server
-- run_server of server.c over the turns of its loop, with clients that are gone and a path that is
-- too long, Daemon/Server/Served what it sends, Daemon/Main main with its options and forks,
-- Daemon/Main/Started what a second start does. What the system calls return is a parameter. The
-- file with the number is one file, whose path does not depend on the working directory. What
-- fprintf writes there gets into the file whole or not at all.
--
-- 21_telnet/main.c, the client that has a text drawn: Telnet has send_all, the words, the prompts
-- and main, Telnet/Words what the array of the words holds, Telnet/Marks where a prompt is found,
-- Telnet/Art what is sent and printed. What the network gives is a parameter. The fuel of send_all
-- is the length of its buffer, enough since a call of write that does not fail takes a byte at least.
--
-- Common/Decimal has the decimal numbers of printf and strtol, Common/Getopt the getopt of POSIX.
--
-- Not modelled: reading of files, sockets, printing and command lines of these programs where no file
-- above names them, and the other programs of the repository, among them the weather client of
-- 08_libraries_homework, which calls curl and a JSON library, and the wave model of
-- point_wave_model, whose floating-point physics is a matter of numerical error.
pub mod Common
pub mod Codepage
pub mod Crc32
pub mod Daemon
pub mod DbStat
pub mod Game
pub mod HashMap
pub mod HttpServer
pub mod LogReader
pub mod Logger
pub mod RingDriver
pub mod Telnet
pub mod Zip
