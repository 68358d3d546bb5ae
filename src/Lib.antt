-- ===== src/Lib.antt =====
-- Models of the parts of the ESP8266 firmware that the repository wrote itself, with proofs of what
-- they do. The firmware is two images (app_setup and app_main) over shared code (app_common), each an
-- event task that dispatches messages to drivers.
--
-- Parts modelled, and where:
--
-- CircBuf: app_common/util/cbuff.c, a circular buffer over memory of the caller. `Ring` is
--   the memory with one `CBUFFTYPE` object; each operation is the function of the same name (put_byte is
--   `cbuffPutByte`), and takes the address that the code is handed as a pointer. `put_array` and
--   `get_array` loop on fuel; more rounds than the buffer has bytes are enough, and the theorems on them
--   say that a result is returned. Pointers are numbers below 2^32, and counts wrap at 2^32.
--   CircBuf.Deque is the abstract view, a bounded double-ended queue, and CircBuf.Valid the invariant of
--   an object.
--   CircBuf.Registry is the global list of buffer objects with their numbers (`cbuffCreate`,
--   `cbuffDestroy`, `cbuffOpen`, `cbuffClose`), over a store of objects by address, 0 being NULL; its
--   loops over the list take fuel, and 15 rounds of the search for a number shift its bit out.
--   CircBuf.Chain says when the store has a list of objects.
--
-- Crc: app_common/util/crc.c. The table-driven functions, with the tables, and the bitwise ones. A
--   buffer and its length are a list of bytes.
--
-- LinkedList: app_common/util/linked_list.c, the doubly linked list, over a store of nodes by address. A
--   function that creates a node takes the address that `os_malloc` gives for it, and what `os_free` is
--   given is recorded. LinkedList.Linked says when a store has a list; LinkedList.Sequence is the abstract
--   view, a sequence of items, and LinkedList.Calls a row of calls of the functions of the code. Positions
--   are integers, as in C; a call that dereferences NULL, which a negative position makes of `list_add` and
--   `list_remove`, has no result (`none`). The allocation of the list object itself
--   (`create_linked_list`) is left out.
--
-- HwTimer: app_setup/driver/hw_timer.c with hw_timer.h, the wrapper of the hardware timer: each function goes
--   from the static variables to the writes to registers, what it returns and the new variables.
--   HwTimer.Frc1 is the timer behind the registers. The frequency of the bus is an argument. NULL can be
--   given as the function to call (`none`).
--
-- DriverEvent: app_setup/driver/driver_event.c, the task that handles the events of the hardware timer, over
--   OneWire, Ws2812 and HwTimer. DriverEvent.Refresh puts them together: an interrupt calls the function of
--   the timer, which posts an event, and the task arms the timer again. The build options are arguments.
--
-- Netutil: app_common/util/netutil.c with netutil.h, the pings. Whether the address is valid and whether
--   `ping_start` starts are arguments; the lookup of names, which hands its arguments to the vendor's
--   stack, is left out.
--
-- OneWire: app_setup/driver/onewire_nb.c with onewire_nb.h and maxim28.h, the driver of a temperature
--   sensor that works by the events of a hardware timer, and the arm of app_setup/setup/setup_event.c
--   that hands it an event. OneWire.Driver has the driver's record, with the static variables of the read
--   and write machines; OneWire.Machine the machines `OW_doit_reset`, `OW_doit_read`, `OW_doit_write` and
--   `OW_doit`: a function from the level of the line at an event to the new record and what is done to the
--   line, in order. `run` is a row of events. OneWire.Sensor has the callbacks at the end of a sequence, the
--   timer between two sequences and the decoding of a temperature; what these functions ask of the system
--   is a list of requests. The driver calls `onewire_crc8` of Crc.
--   OneWire.Safety has the invariant of the driver's arrays and counters. OneWire.Missed puts the machines
--   and the callbacks together for a reset that no device answers.
--
-- BitwiseUtils: app_common/util/bitwise_utils.c. `hibit8` loops for 8 rounds and `totalBitsSet32` for 33,
--   which shift every bit out.
--
-- Cli: app_setup/setup/setup_cli.c (app_main/main/main_cli.c is the same code with other names), the command
--   line. The memory from the line on is a list of bytes, which `setup_cli_shift` and `setup_cli_parse`
--   change in place; their loops take fuel, one round for each character and one more. `strstr` is an
--   argument, and so is the value that `setup_cli_parse` returns where it returns none (`junk`).
--   The receive buffer has 128 bytes; a first word that would be copied past its end has no result (`none`).
--   Cli.Commands has the commands; the arguments of `rboot_switch` are listed.
--
-- FlashFs: app_common/platform/flash_fs.c, the list of the files of the two SPIFFS file systems and the
--   operations on a file. FlashFs.Interface has the SPIFFS functions that the code calls, as a record over
--   any state, with what the code relies on as hypotheses of the theorems; the string search of the C
--   library and the listings of the two directories are arguments, and so is the value of a field that the
--   code leaves uninitialised (`junk`). The loop of `fs_update_crc` takes fuel: one round for each byte and
--   one more. `fsJSON_get_list` and its callback, which print the list as JSON, are left out.
--
-- Ws2812: app_setup/driver/ws2812.c with ws2812.h, the driver of a strip of LEDs and its fading colours: each
--   function goes from the static variables to what is asked of the bus and the timers, in order, and the
--   new variables. The floating-point factors of `patterns` are whole 256ths, for which the products are
--   exact, and what is read behind the table is an argument (`beyond`). Ws2812.Wave is the receiving end,
--   an LED that tells ones from zeros by the length of a pulse; Ws2812.Phase is the course of the fading
--   as a relation on the counters. The set-up of the bus and the debug prints are left out.
--
-- Wifi: app_setup/setup/setup_event.c with setup_event.h, the timer and the handler of WiFi events,
--   and app_setup/setup/setup_api.c, which calls the timer's callback (app_main/main/main_event.c and
--   main_api.c differ from them in names, in the limit of half an hour and in a value of
--   `wifiStatus_mq`). `Monitor` is `SETUP_MON_T` with the static variables; `Happening` is what may
--   happen to it, and `happen_all` a row of such events. What the system answers (its clock, SNTP, the
--   state of the station) is an argument. The callback of the name lookup and SmartConfig are left
--   out.
--
-- Uart: app_setup/driver/uart.c, the interrupt that gathers a line (`uart_recvTask`) and the functions that
--   send characters. The FIFO is the list of bytes in it; the byte in front of the buffer, which the code may
--   read, is an argument (`before`). The loop ends with the FIFO or the buffer, and so needs no fuel. The
--   set-up of the registers is left out, and so are `uart_tx_one_char` and its like.
--
-- EventTask: app_setup/setup/setup_event.c, `Event_Mon_Task`, which handles the messages of the system's
--   queue: a function from an event and the receive buffer of the command line to what the task does, in
--   order, and the buffer. A message of the UART goes to the functions of Cli; an event of the 1-Wire
--   interface goes to `on_event` of OneWire. EventTask.Typed puts Uart, EventTask and Cli together.
--
-- Integers are natural numbers where the source takes or makes no negative ones, with the wrap-around of
-- the source's type written out where a value can reach it. Debug output and the counters behind `OW_ADDTL_DEBUG` are left out. The build option
-- `USE_P_PWR` is an argument.
--
-- Not modelled: the copies of other projects (lwip, spiffs, jsmn, jsontree, newcrypto, mqtt, rboot, the
-- esptools), which the parts above do not call; the system's timers and event queue, of which only the
-- requests are recorded; the registers behind the pins.
pub mod BitwiseUtils
pub mod CircBuf
pub mod Cli
pub mod Common
pub mod Crc
pub mod DriverEvent
pub mod EventTask
pub mod FlashFs
pub mod HwTimer
pub mod LinkedList
pub mod Netutil
pub mod OneWire
pub mod Uart
pub mod Wifi
pub mod Ws2812
